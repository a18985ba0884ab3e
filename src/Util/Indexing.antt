-- ===== src/Util/Indexing.antt =====
-- io.util.indexOf, and indexed reads of an array.
use socket_io_java.Common.{
  ℕ, zero, suc, ◌+◌, ◌-◌, ◌≤◌, ◌<◌, ◌≡◌, ◌≢◌, refl, true, false, Option, none, some, List, [], ◌∷◌,
  arith, Eq, ap, sym, ◌∙◌, inl, inr, ◌==◌, Bool-cases, length, drop, get_elem?, Text, decimal,
  if◌then◌else◌, text_eq,
}

-- A start index may be negative; `negsuc n` is -(n + 1).
pub data ℤ : Type 0 where
  pos : ℕ → ℤ
  negsuc : ℕ → ℤ

-- The initial `i` of the loop; no start index is `none`.
unfoldable pub first_index : ℕ → Option ℤ → ℕ
first_index j none = 0
first_index j (some (ℤ.pos i)) = i
first_index j (some (ℤ.negsuc n)) = j - suc n

module _ {ℓ} {A : Type ℓ} ⦃e : Eq A⦄ where
  -- The loop, from index `i` on; `none` stands for -1.
  pub scan : List A → A → ℕ → Option ℕ
  scan [] o i = none
  scan (x ∷ xs) o i = elim (x == o) [ true ↦ some i | false ↦ scan xs o (suc i) ]

  unfoldable pub index_of : List A → A → Option ℤ → Option ℕ
  unfolding scan first_index
  index_of arr o start = let i = first_index (length arr) start in scan (drop i arr) o i

-- `arr[text]` for a property name that is a text: the elements are the properties "0", "1", ….
module _ {ℓ} {A : Type ℓ} where
  pub property_from : ℕ → List A → Text → Option A
  property_from i [] t = none
  property_from i (x ∷ xs) t = if decimal i == t then some x else property_from (suc i) xs t

  unfoldable pub property : List A → Text → Option A
  unfolding property_from decimal
  property = property_from 0

-- What a search from index `from` on has to return.
abbrev pub IsFirst {ℓ} : {A : Type ℓ} → List A → A → ℕ → Option ℕ → Type ℓ
IsFirst arr o from (some k) =
    (from ≤ k)
    × (get_elem? arr k ≡ some o)
    × ((j : ℕ) → from ≤ j → j < k → get_elem? arr j ≢ some o)
IsFirst arr o from none = (j : ℕ) → from ≤ j → get_elem? arr j ≢ some o

module _ {ℓ} {A : Type ℓ} ⦃e : Eq A⦄ where
  -- The scan returns its counter plus the first position that holds the value.
  abbrev ScansTo : List A → A → ℕ → Option ℕ → Type ℓ
  ScansTo xs o i none = (j : ℕ) → get_elem? xs j ≢ some o
  ScansTo xs o i (some k) =
      (i ≤ k) × (get_elem? xs (k - i) ≡ some o) × ((j : ℕ) → i + j < k → get_elem? xs j ≢ some o)

  ScansTo-cons :
      (x : A) (xs : List A) (o : A) (i : ℕ) (r : Option ℕ)
      → x ≢ o
      → ScansTo xs o (suc i) r
      → ScansTo (x ∷ xs) o i r
  ScansTo-cons x xs o i none h s = later
    where
      later : (j : ℕ) → get_elem? (x ∷ xs) j ≢ some o
      later zero p = h (cc)
      later (suc j) p = s j p
  ScansTo-cons x xs o i (some k) h s = (omega arith, rw shift s.1, earlier)
    where
      shift : k - i ≡ suc (k - suc i)
      shift = omega (arith, s.0)

      earlier : (j : ℕ) → i + j < k → get_elem? (x ∷ xs) j ≢ some o
      earlier zero b p = h (cc)
      earlier (suc j) b p = s.2 j (omega arith) p

  scan-ScansTo : (xs : List A) (o : A) (i : ℕ) → ScansTo xs o i (scan xs o i)
  unfolding scan
  scan-ScansTo [] o i = λ j. cc
  scan-ScansTo (x ∷ xs) o i = elim (Bool-cases (x == o)) [
    | inl same ↦
        rw (same, scan)
          (
            omega arith,
            rw (sub-self i) (ap some ((e.beq_iff x o).0 same)),
            λ j b. absurd (omega arith),
          )
    | inr other ↦
        rw (other, scan)
          (ScansTo-cons x xs o i (scan xs o (suc i)) (λ p. differ other p)
            (scan-ScansTo xs o (suc i)))
  ]
    where
      sub-self : (n : ℕ) → n - n ≡ 0
      sub-self n = omega arith

      differ : (x == o) ≡ false → x ≢ o
      differ other p = cc ((e.beq_iff x o).1 p)

  get_elem?-drop : (i j : ℕ) (xs : List A) → get_elem? (drop i xs) j ≡ get_elem? xs (i + j)
  get_elem?-drop zero j xs = ap (get_elem? xs) (omega arith)
  get_elem?-drop (suc i) j [] = refl
  get_elem?-drop (suc i) j (x ∷ xs) =
      get_elem?-drop i j xs ∙ ap (get_elem? (x ∷ xs)) {x = suc (i + j)} (omega arith)

  ScansTo-IsFirst :
      (arr : List A) (o : A) (i : ℕ) (r : Option ℕ) → ScansTo (drop i arr) o i r → IsFirst arr o i r
  ScansTo-IsFirst arr o i none s = λ j b p. s (j - i) (moved j b ∙ p)
    where
      moved : (j : ℕ) → i ≤ j → get_elem? (drop i arr) (j - i) ≡ get_elem? arr j
      moved j b = get_elem?-drop i (j - i) arr ∙ ap (get_elem? arr) (omega arith)
  ScansTo-IsFirst arr o i (some k) s =
      (s.0, sym (moved k s.0) ∙ s.1, λ j b c p. s.2 (j - i) (omega arith) (moved j b ∙ p))
    where
      moved : (j : ℕ) → i ≤ j → get_elem? (drop i arr) (j - i) ≡ get_elem? arr j
      moved j b = get_elem?-drop i (j - i) arr ∙ ap (get_elem? arr) (omega arith)

  -- The search returns the first index, from the start index on, that holds the value, and -1
  -- exactly when none does. A negative start counts from the end, and stops at the beginning.
  pub index_of-IsFirst :
      (arr : List A) (o : A) (start : Option ℤ)
      → IsFirst arr o (first_index (length arr) start) (index_of arr o start)
  unfolding index_of
  index_of-IsFirst arr o start =
      ScansTo-IsFirst arr o (first_index (length arr) start) _ (
        scan-ScansTo (drop (first_index (length arr) start) arr) o (first_index (length arr) start))
