-- ===== src/Util/Objects/Chains.antt =====
-- What a property reads as, behind writes to other objects.
use socket_io_java.Common.{
  ℕ, zero, suc, ◌<◌, ◌≤◌, false, Option, none, some, ◌≡◌, refl, sym, ap, ◌∙◌, arith, Text, List, [],
  ◌∷◌, text_eq, lookup, insert, length, eqb, Option-cases, inl, inr,
}
use socket_io_java.Util.Objects.{Held, undefined, Heap, get, read, put, shape}

abbrev pub Shape : Type 0
Shape = List (Text × Held) × Option ℕ

-- A prototype is older than what inherits from it.
abbrev pub IsOlder : ℕ → Option ℕ → Type 0
IsOlder i none = Unit {0}
IsOlder i (some j) = j < i

pub record IsOrdered (h : Heap) : Type 0 where
  pub older :
      (i : ℕ) (own : List (Text × Held)) (o : Option ℕ) → shape h i ≡ some (own, o) → IsOlder i o

abbrev pub found_in : Held → Option Held → Held
found_in other none = other
found_in other (some v) = v

get-none :
    (h : Heap) (n i : ℕ) (name : Text) → shape h i ≡ none → get (suc n) h (some i) name ≡ undefined
unfolding get
get-none h n i name e = rw (e, get) refl

pub get-some :
    (h : Heap) (n i : ℕ) (name : Text) (own : List (Text × Held)) (o : Option ℕ)
    → shape h i ≡ some (own, o)
    → get (suc n) h (some i) name ≡ found_in (get n h o name) (lookup name own)
unfolding get
get-some h n i name own o e = rw (e, get) (found (lookup name own))
  where
    found :
        (v : Option Held)
        → (elim v [ none ↦ get n h o name | some w ↦ w ]) ≡ found_in (get n h o name) v
    found none = refl
    found (some w) = refl

-- The search looks at nothing but the older shapes.
pub get-agrees :
    (h k : Heap) (b n : ℕ) (o : Option ℕ) (name : Text)
    → IsOrdered h
    → ((i : ℕ) → i < b → shape h i ≡ shape k i)
    → IsOlder b o
    → get n h o name ≡ get n k o name
unfolding get
get-agrees h k b zero o name r s l = refl
get-agrees h k b (suc n) none name r s l = refl
get-agrees h k b (suc n) (some i) name r s l = elim (Option-cases (shape h i)) [
  | inl e ↦ get-none h n i name e ∙ sym (get-none k n i name (sym (s i l) ∙ e))
  | inr ((own, o), e) ↦
      get-some h n i name own o e
      ∙ ap (λ v. found_in v (lookup name own))
          (get-agrees h k i n o name r (λ j m. s j (omega (arith, m, l))) (r.older i own o e))
      ∙ sym (get-some k n i name own o (sym (s i l) ∙ e))
]

-- No chain is longer than the place where it begins.
pub get-enough :
    (h : Heap) (b n m : ℕ) (o : Option ℕ) (name : Text)
    → IsOrdered h
    → b ≤ n
    → b ≤ m
    → IsOlder b o
    → get n h o name ≡ get m h o name
unfolding get
get-enough h b zero zero o name r p q l = refl
get-enough h b zero (suc m) none name r p q l = refl
get-enough h b zero (suc m) (some i) name r p q l = ground (arith, p, l)
get-enough h b (suc n) zero none name r p q l = refl
get-enough h b (suc n) zero (some i) name r p q l = ground (arith, q, l)
get-enough h b (suc n) (suc m) none name r p q l = refl
get-enough h b (suc n) (suc m) (some i) name r p q l = elim (Option-cases (shape h i)) [
  | inl e ↦ get-none h n i name e ∙ sym (get-none h m i name e)
  | inr ((own, o), e) ↦
      get-some h n i name own o e
      ∙ ap (λ v. found_in v (lookup name own))
          (get-enough h i n m o name r (omega (arith, p, l)) (omega (arith, q, l))
            (r.older i own o e))
      ∙ sym (get-some h m i name own o e)
]

-- An object without the property reads what its prototype reads.
pub read-inherits :
    (h : Heap) (p r : ℕ) (own : List (Text × Held)) (name : Text)
    → IsOrdered h
    → shape h p ≡ some (own, some r)
    → lookup name own ≡ none
    → p < length h
    → read h p name ≡ read h r name
unfolding read
read-inherits h p r own name o e l b =
    get-some h (length h) p name own (some r) e
    ∙ ap (found_in (get (length h) h (some r) name)) l
    ∙ get-enough h p (length h) (suc (length h)) (some r) name o (omega (arith, b))
        (omega (arith, b)) (o.older p own (some r) e)

abbrev pub put_shape : Text → Held → Option Shape → Option Shape
put_shape name v none = none
put_shape name v (some (own, o)) = some (insert name v own, o)

-- A write changes the own properties of its object alone.
pub shape-put_same :
    (h : Heap) (t : ℕ) (name : Text) (v : Held)
    → shape (put h t name v) t ≡ put_shape name v (shape h t)
unfolding put
shape-put_same [] t name v = refl
shape-put_same (o ∷ h) zero name v = refl
shape-put_same (o ∷ h) (suc t) name v = shape-put_same h t name v

pub shape-put_other :
    (h : Heap) (t : ℕ) (name : Text) (v : Held) (i : ℕ)
    → eqb t i ≡ false
    → shape (put h t name v) i ≡ shape h i
unfolding put
shape-put_other [] t name v i e = refl
shape-put_other (o ∷ h) zero name v zero e = cc
shape-put_other (o ∷ h) zero name v (suc i) e = refl
shape-put_other (o ∷ h) (suc t) name v zero e = refl
shape-put_other (o ∷ h) (suc t) name v (suc i) e = shape-put_other h t name v i (ground (arith, e))

pub length-put : (h : Heap) (t : ℕ) (name : Text) (v : Held) → length (put h t name v) ≡ length h
unfolding put
length-put [] t name v = refl
length-put (o ∷ h) zero name v = refl
length-put (o ∷ h) (suc t) name v = ap suc (length-put h t name v)
