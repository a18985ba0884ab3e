-- ===== src/Util/Objects/Writes.antt =====
-- What an object reads behind a write to it.
use socket_io_java.Common.{
  ℕ, zero, suc, Bool, true, false, Option, some, ◌≡◌, refl, sym, ap, ◌∙◌, arith, Text, List, [],
  ◌∷◌, if◌then◌else◌, ◌==◌, text_eq, lookup, insert, lookup-insert, length,
}
use socket_io_java.Util.Objects.{Held, Heap, get, read, put, shape}
use socket_io_java.Util.Objects.Chains.{
  IsOrdered, found_in, get-some, get-agrees, put_shape, shape-put_same, shape-put_other, length-put,
}

-- `object[name] = value`, for one object after another.
pub record Write : Type 0 where
  pub place : ℕ
  pub name : Text
  pub value : Held

abbrev pub puts : Heap → List Write → Heap
puts h [] = h
puts h (w ∷ ws) = puts (put h w.place w.name w.value) ws

-- A write leaves the prototypes.
pub put-proto :
    (h : Heap) (t : ℕ) (name : Text) (v : Held) (i : ℕ) (own : List (Text × Held)) (o : Option ℕ)
    → shape (put h t name v) i ≡ some (own, o)
    → (before : List (Text × Held)) × (shape h i ≡ some (before, o))
unfolding put
put-proto [] t name v i own o e = (own, e)
put-proto (x ∷ h) zero name v zero own o e = (x.own, cc)
put-proto (x ∷ h) zero name v (suc i) own o e = (own, e)
put-proto (x ∷ h) (suc t) name v zero own o e = (own, e)
put-proto (x ∷ h) (suc t) name v (suc i) own o e = put-proto h t name v i own o e

pub put-IsOrdered :
    (h : Heap) (t : ℕ) (name : Text) (v : Held) → IsOrdered h → IsOrdered (put h t name v)
put-IsOrdered h t name v r = record {
  older = λ i own o e. let (before, f) = put-proto h t name v i own o e in r.older i before o f;
}

found_in-insert :
    (name asked : Text) (v w : Held) (own : List (Text × Held))
    → found_in w (lookup asked (insert name v own))
      ≡ (if name == asked then v else found_in w (lookup asked own))
found_in-insert name asked v w own =
    ap (found_in w) (lookup-insert name asked v own) ∙ by (name == asked)
  where
    by :
        (b : Bool)
        → found_in w (if b then some v else lookup asked own)
          ≡ (if b then v else found_in w (lookup asked own))
    by true = refl
    by false = refl

-- What an object reads after a write to it.
pub read-put :
    (h : Heap) (t : ℕ) (own : List (Text × Held)) (o : Option ℕ) (name : Text) (v : Held)
    (asked : Text)
    → IsOrdered h
    → shape h t ≡ some (own, o)
    → read (put h t name v) t asked ≡ (if name == asked then v else read h t asked)
unfolding read
read-put h t own o name v asked r e =
    get-some (put h t name v) (length (put h t name v)) t asked (insert name v own) o
      (shape-put_same h t name v ∙ ap (put_shape name v) e)
    ∙ ap (λ n. found_in (get n (put h t name v) o asked) (lookup asked (insert name v own)))
        (length-put h t name v)
    ∙ ap (λ w. found_in w (lookup asked (insert name v own))) (sym before)
    ∙ found_in-insert name asked v (get (length h) h o asked) own
    ∙ ap (λ w. if name == asked then v else w) (sym (get-some h (length h) t asked own o e))
  where
    before : get (length h) h o asked ≡ get (length h) (put h t name v) o asked
    before =
        get-agrees h (put h t name v) t (length h) o asked r
          (λ i l. sym (shape-put_other h t name v i (ground (arith, l)))) (r.older t own o e)
