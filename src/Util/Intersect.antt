-- ===== src/Util/Intersect.antt =====
-- io.util.intersect, which the handshake uses to pick the transports that both sides have.
use socket_io_java.Common.{
  ℕ, ◌≡◌, refl, Bool, true, false, ◌&&◌, ◌||◌, Option, none, some, List, [], ◌∷◌, arith, Eq, ◌==◌,
  length, ltb, sym, if◌then◌else◌, zero, suc, ◌≢◌, get_elem?,
}
use socket_io_java.Util.Indexing.{first_index, index_of, index_of-IsFirst, IsFirst}

module _ {ℓ} {A : Type ℓ} ⦃e : Eq A⦄ where
  -- `~indexOf(arr, o)`: -1 is the one index that counts as false.
  pub has : List A → A → Bool
  has arr o = elim (index_of arr o none) [ none ↦ false | some i ↦ true ]

  -- The loop over the shorter array.
  pub pick : List A → List A → List A
  pick longest [] = []
  pick longest (x ∷ xs) = if has longest x then x ∷ pick longest xs else pick longest xs

  unfoldable pub intersect : List A → List A → List A
  unfolding has pick
  intersect arr arr2 = if ltb (length arr2) (length arr) then pick arr arr2 else pick arr2 arr

  -- Membership, by recursion.
  abbrev pub contains : A → List A → Bool
  contains a [] = false
  contains a (x ∷ xs) = (x == a) || contains a xs

  get_elem?-contains :
      (xs : List A) (a : A) (i : ℕ) → get_elem? xs i ≡ some a → contains a xs ≡ true
  get_elem?-contains [] a i p = cc
  get_elem?-contains (x ∷ xs) a zero p = ground (arith, e.beq_iff x a)
  get_elem?-contains (x ∷ xs) a (suc i) p = ground (arith, get_elem?-contains xs a i)

  not-contains : (xs : List A) (a : A) → ((i : ℕ) → get_elem? xs i ≢ some a) → contains a xs ≡ false
  not-contains [] a h = refl
  not-contains (x ∷ xs) a h = ground (arith, e.beq_iff x a, h 0, not-contains xs a (λ i. h (suc i)))

  has-found :
      (xs : List A) (a : A) (r : Option ℕ)
      → IsFirst xs a 0 r
      → elim r as (λ _. Bool) [ none ↦ false | some i ↦ true ] ≡ contains a xs
  has-found xs a none h = sym (not-contains xs a (λ i. h i (omega arith)))
  has-found xs a (some k) h = sym (get_elem?-contains xs a k h.1)

  pub has-contains : (xs : List A) (a : A) → has xs a ≡ contains a xs
  unfolding has first_index
  has-contains xs a = has-found xs a (index_of xs a none) (index_of-IsFirst xs a none)

  contains-same : (a x : A) (xs : List A) → (x == a) ≡ true → contains x xs ≡ contains a xs
  contains-same a x xs h = rw ((e.beq_iff x a).0 h)

  contains-pick :
      (a : A) (long xs : List A) → contains a (pick long xs) ≡ (contains a long && contains a xs)
  unfolding pick
  contains-pick a long [] = ground arith
  contains-pick a long (x ∷ xs) =
      ground (arith, contains-pick a long xs, has-contains long x, contains-same a x long)

  -- The intersection holds exactly the values that both arrays hold, whichever is the longer.
  contains-intersect :
      (a : A) (arr arr2 : List A)
      → contains a (intersect arr arr2) ≡ (contains a arr && contains a arr2)
  unfolding intersect
  contains-intersect a arr arr2 = ground (arith, contains-pick a arr arr2, contains-pick a arr2 arr)
