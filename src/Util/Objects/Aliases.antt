-- ===== src/Util/Objects/Aliases.antt =====
-- io.util.merge into an object that others hold.
use socket_io_java.Common.{
  ℕ, zero, suc, Bool, true, false, Option, none, some, ◌≡◌, refl, ap, ◌∙◌, Text, List, [], ◌∷◌,
  if◌then◌else◌, ◌==◌, text_eq, lookup, eqb, length, beq_refl,
}
use socket_io_java.Util.Objects.{
  Held, object, text, Heap, read, put, is_object, shape, own_of, names, or_undefined, target_of,
  Merging, merge_each, merge_objects,
}
use socket_io_java.Util.Objects.Chains.{IsOrdered, get-some, found_in, shape-put_other}
use socket_io_java.Util.Objects.Writes.{read-put}

lookup-own : (name : Text) (v : Held) → or_undefined (lookup name ((name, v) ∷ [])) ≡ v
unfolding lookup
lookup-own name v = ap (λ b. or_undefined (if b then some v else none)) (beq_refl name)

first_value :
    (h : Heap) (v w : Held) (name : Text)
    → own_of h v ≡ (name, w) ∷ []
    → or_undefined (lookup name (own_of h v)) ≡ w
first_value h v w name e = ap (λ o. or_undefined (lookup name o)) e ∙ lookup-own name w

abbrev written_to : Heap → ℕ → Text → Held → Merging
written_to h r name v = record { heap = put h r name v; seen = v ∷ [] }

each_text :
    (nested : Option ℕ → Held → Merging → Option Merging) (deep : Bool) (h : Heap) (q r : ℕ)
    (name x : Text)
    → own_of h (object q) ≡ (name, text x) ∷ []
    → is_object h (read h r name) ≡ false
    → merge_each nested deep (some r) (object q) (name ∷ []) (record { heap = h; seen = [] })
      ≡ some (written_to h r name (text x))
unfolding merge_each
each_text nested deep h q r name x e f =
    rw f (ap (λ v. some (written_to h r name v)) (first_value h (object q) (text x) name e))

-- One property that is a text is assigned, where the target has no object there.
merge_text :
    (h : Heap) (d q r : ℕ) (name x : Text)
    → own_of h (object q) ≡ (name, text x) ∷ []
    → is_object h (read h r name) ≡ false
    → merge_objects d (some r) (object q) (record { heap = h; seen = [] })
      ≡ some (written_to h r name (text x))
unfolding merge_objects
merge_text h zero q r name x e f =
    ap
      (λ own.
        merge_each (λ t a n. some n) false (some r) (object q) (names own)
          (record { heap = h; seen = [] }))
      e
    ∙ each_text (λ t a n. some n) false h q r name x e f
merge_text h (suc d) q r name x e f =
    ap
      (λ own.
        merge_each (merge_objects d) true (some r) (object q) (names own)
          (record { heap = h; seen = [] }))
      e
    ∙ each_text (merge_objects d) true h q r name x e f

each_object :
    (nested : Option ℕ → Held → Merging → Option Merging) (h : Heap) (t a : ℕ) (held value : Held)
    (name : Text) (m : Merging)
    → own_of h (object a) ≡ (name, value) ∷ []
    → read h t name ≡ held
    → is_object h held ≡ true
    → nested (target_of held) value (record { heap = h; seen = [] }) ≡ some m
    → merge_each nested true (some t) (object a) (name ∷ []) (record { heap = h; seen = [] })
      ≡ some m
unfolding merge_each
each_object nested h t a held value name m e l o n =
    rw l (rw o (rw (first_value h (object a) value name e) (rw n refl)))

-- An option that gives one name in an array, as `transports`, is merged into the array that the target has there: the place of the
-- name in that array becomes the name, and every other property of it reads as before. Any other object that holds the array, as
-- io.transports, still holds it. The target has an object under the option's name and none at the place in it, and
-- prototypes are older than what inherits from them.
pub merge_shared :
    (h : Heap) (t a q r k : ℕ) (name first x : Text) (own other : List (Text × Held))
    (o p : Option ℕ)
    → IsOrdered h
    → own_of h (object a) ≡ (name, object q) ∷ []
    → own_of h (object q) ≡ (first, text x) ∷ []
    → read h t name ≡ object r
    → is_object h (object r) ≡ true
    → is_object h (read h r first) ≡ false
    → shape h r ≡ some (own, o)
    → shape h k ≡ some (other, p)
    → lookup name other ≡ some (object r)
    → eqb r k ≡ false
    → (m : Merging) × (merge_objects 2 (some t) (object a) (record { heap = h; seen = [] })
        ≡ some m)
      × (read m.heap k name ≡ object r)
      × ((asked : Text) → read m.heap r asked ≡ (if first == asked then text x else read h r asked))
unfolding merge_objects read
merge_shared h t a q r k name first x own other o p d ea eq l i f sr sk lk n = (
  written_to h r first (text x),
  ap
        (λ own.
          merge_each (merge_objects 1) true (some t) (object a) (names own)
            (record { heap = h; seen = [] }))
        ea
      ∙ each_object (merge_objects 1) h t a (object r) (object q) name _ ea l i
          (merge_text h 1 q r first x eq f),
  get-some (put h r first (text x)) (length (put h r first (text x))) k name other p
        (shape-put_other h r first (text x) k n ∙ sk)
      ∙ ap (found_in _) lk,
  λ asked. read-put h r own o first (text x) asked d sr,
)
