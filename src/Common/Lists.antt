-- ===== src/Common/Lists.antt =====
-- Lists measured and indexed by native numbers, under the library's names.
use Prim.Native.Nat.{ℕ, zero, suc, ◌+◌}
use mathlib.Core.Path.{◌≡◌, refl, ap}
use mathlib.Core.List.{List, [], ◌∷◌, ◌++◌, map}
use mathlib.Core.Option.{Option, none, some}
use native.Mathlib.Omega.{arith}

module _ {ℓ} {A : Type ℓ} where
  abbrev pub length : List A → ℕ
  length [] = 0
  length (x ∷ xs) = suc (length xs)

  abbrev pub get_elem? : List A → ℕ → Option A
  get_elem? [] i = none
  get_elem? (x ∷ xs) zero = some x
  get_elem? (x ∷ xs) (suc i) = get_elem? xs i

  abbrev pub take : ℕ → List A → List A
  take zero xs = []
  take (suc n) [] = []
  take (suc n) (x ∷ xs) = x ∷ take n xs

  abbrev pub drop : ℕ → List A → List A
  drop zero xs = xs
  drop (suc n) [] = []
  drop (suc n) (x ∷ xs) = drop n xs

module _ {ℓ} {A : Type ℓ} where
  pub length-append : (xs ys : List A) → length (xs ++ ys) ≡ length xs + length ys
  length-append [] ys = omega arith
  length-append (x ∷ xs) ys = omega (arith, length-append xs ys)

  pub length-map {κ} : {B : Type κ} (xs : List A) (f : A → B) → length (map f xs) ≡ length xs
  length-map [] f = refl
  length-map (x ∷ xs) f = ap suc (length-map xs f)

  pub take-length_append : (xs ys : List A) → take (length xs) (xs ++ ys) ≡ xs
  take-length_append [] ys = refl
  take-length_append (x ∷ xs) ys = ap (◌∷◌ x) (take-length_append xs ys)

  pub drop-length_append : (xs ys : List A) → drop (length xs) (xs ++ ys) ≡ ys
  drop-length_append [] ys = refl
  drop-length_append (x ∷ xs) ys = drop-length_append xs ys

-- A predicate on every element, by recursion: it computes to a tuple.
module _ {ℓ κ} {X : Type ℓ} (Holds : X → Type κ) where
  abbrev pub All : List X → Type κ
  All [] = Unit
  All (first ∷ rest) = Holds first × All rest

  pub All-append : (front back : List X) → All front → All back → All (front ++ back)
  All-append [] back p q = q
  All-append (first ∷ rest) back (h, p) q = (h, All-append rest back p q)

  pub All-split : (front back : List X) → All (front ++ back) → All front × All back
  All-split [] back a = (tt, a)
  All-split (first ∷ rest) back (h, a) = let (p, q) = All-split rest back a in ((h, p), q)

  pub All-always : ((x : X) → Holds x) → (xs : List X) → All xs
  All-always always [] = tt
  All-always always (first ∷ rest) = (always first, All-always always rest)

pub All-weaken {ℓ κ μ} :
    {X : Type ℓ} {P : X → Type κ} {Q : X → Type μ}
    → ((x : X) → P x → Q x)
    → (xs : List X) → All P xs
    → All Q xs
All-weaken f [] a = tt
All-weaken f (x ∷ xs) a = (f x a.0, All-weaken f xs a.1)

pub All-combine {ℓ κ μ ν} :
    {X : Type ℓ} {P : X → Type κ} {Q : X → Type μ} {R : X → Type ν}
    → ((x : X) → P x → Q x → R x)
    → (xs : List X) → All P xs
    → All Q xs
    → All R xs
All-combine f [] a b = tt
All-combine f (x ∷ xs) a b = (f x a.0 b.0, All-combine f xs a.1 b.1)
