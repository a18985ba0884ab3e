-- ===== src/Util/Objects/Methods.antt =====
-- Lists of methods, and what a merge of them leaves as it is.
use socket_io_java.Common.{
  ℕ, zero, suc, true, false, ◌||◌, Option, some, ◌≡◌, refl, sym, ap, ◌∙◌, arith, Text, List, [],
  ◌∷◌, ◌++◌, if◌then◌else◌, ◌==◌, text_eq, lookup, insert, eqb, All, Bool-cases, inl, inr,
}
use socket_io_java.Util.Objects.{
  Held, object, text, plain, null, undefined, Heap, read, put, is_object, shape, own_of, sees,
  Merging,
}
use socket_io_java.Util.Objects.Chains.{IsOrdered, found_in, put_shape, shape-put_same}
use socket_io_java.Util.Objects.Writes.{put-IsOrdered}

-- The entries of a list that are read from another one as they are in it.
abbrev pub AreOf : List (Text × Held) → List (Text × Held) → Type 0
AreOf ms = All λ e. lookup e.0 ms ≡ some e.1

pub lookup-AreOf :
    (ms rest : List (Text × Held)) (name : Text) (v : Held)
    → AreOf ms rest
    → lookup name rest ≡ some v
    → lookup name ms ≡ some v
unfolding lookup
lookup-AreOf ms [] name v a e = cc
lookup-AreOf ms ((k, w) ∷ rest) name v a e = elim (Bool-cases (k == name)) [
  | inl f ↦
      ap (λ j. lookup j ms) (sym (same f))
      ∙ a.0
      ∙ sym (ap (λ b. if b then some w else lookup name rest) f)
      ∙ e
  | inr f ↦
      lookup-AreOf ms rest name v a.1 (sym (ap (λ b. if b then some w else lookup name rest) f) ∙ e)
]
  where
    same : (k == name) ≡ true → k ≡ name
    same f = ground (arith, text_eq.beq_iff k name, f)

-- A list of functions.
abbrev pub AreMethods : Heap → List (Text × Held) → Type 0
AreMethods h = All λ e. (f : ℕ) × (e.1 ≡ object f) × (is_object h (object f) ≡ false)

pub sees-object :
    (vs : List Held) (f : ℕ) (name : Text) → sees (vs ++ object f ∷ []) name ≡ sees vs name
sees-object [] f name = refl
sees-object (object i ∷ vs) f name = sees-object vs f name
sees-object (text t ∷ vs) f name = ap (λ b. (t == name) || b) (sees-object vs f name)
sees-object (plain i ∷ vs) f name = sees-object vs f name
sees-object (null ∷ vs) f name = sees-object vs f name
sees-object (undefined ∷ vs) f name = sees-object vs f name

pub is_object-put :
    (h : Heap) (t : ℕ) (name : Text) (v w : Held) → is_object (put h t name v) w ≡ is_object h w
unfolding put
is_object-put h t name v null = refl
is_object-put h t name v undefined = refl
is_object-put h t name v (text x) = refl
is_object-put h t name v (plain x) = refl
is_object-put h t name v (object i) = at h t i
  where
    at : (h : Heap) (t i : ℕ) → is_object (put h t name v) (object i) ≡ is_object h (object i)
    at [] t i = refl
    at (o ∷ h) zero zero = refl
    at (o ∷ h) zero (suc i) = refl
    at (o ∷ h) (suc t) zero = refl
    at (o ∷ h) (suc t) (suc i) = at h t i

-- A target, and the object whose own properties are read.
pub record IsReady (h : Heap) (t q : ℕ) (ms : List (Text × Held)) : Type 0 where
  pub ordered : IsOrdered h
  pub own : List (Text × Held)
  pub proto : Option ℕ
  pub shape_eq : shape h t ≡ some (own, proto)
  pub source : own_of h (object q) ≡ ms

own_of-put :
    (h : Heap) (t q : ℕ) (name : Text) (v : Held)
    → eqb t q ≡ false
    → own_of (put h t name v) (object q) ≡ own_of h (object q)
unfolding put
own_of-put [] t q name v e = refl
own_of-put (o ∷ h) zero zero name v e = cc
own_of-put (o ∷ h) zero (suc q) name v e = refl
own_of-put (o ∷ h) (suc t) zero name v e = refl
own_of-put (o ∷ h) (suc t) (suc q) name v e = own_of-put h t q name v (ground (arith, e))

pub put-IsReady :
    (h : Heap) (t q : ℕ) (ms : List (Text × Held)) (name : Text) (v : Held)
    → eqb t q ≡ false
    → IsReady h t q ms
    → IsReady (put h t name v) t q ms
put-IsReady h t q ms name v e r = record {
  ordered = put-IsOrdered h t name v r.ordered;
  own = insert name v r.own;
  proto = r.proto;
  shape_eq = shape-put_same h t name v ∙ ap (put_shape name v) r.shape_eq;
  source = own_of-put h t q name v e ∙ r.source;
}

-- What a merge of methods leaves: the methods, and else what the target read before.
abbrev pub IsMixed : Heap → ℕ → List (Text × Held) → Merging → Type 0
IsMixed h t rest m =
    (asked : Text) → read m.heap t asked ≡ found_in (read h t asked) (lookup asked rest)
