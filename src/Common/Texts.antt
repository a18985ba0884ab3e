-- ===== src/Common/Texts.antt =====
-- A JavaScript string is the list of its UTF-16 code units.
use Prim.Native.Nat.{ℕ, zero, suc, ◌+◌, ◌-◌, ◌*◌, ◌/◌, ◌%◌, ◌≤◌, ◌<◌}
use Prim.Native.Char.{code}
use Prim.Native.String.{String}
use mathlib.Core.Path.{ap, ◌≡◌, refl, ◌∙◌, sym}
use mathlib.Core.Logic.{◌≢◌, inl, inr}
use mathlib.Core.Bool.{Bool, true, false, ◌&&◌}
use mathlib.Core.List.{List, [], ◌∷◌, ◌++◌}
use native.Mathlib.Omega.{arith}
use socket_io_java.Common.Tests.{eqb, leb, ltb, if◌then◌else◌, Bool-cases}
use socket_io_java.Common.Lists.{All, All-append}

abbrev pub Text : Type 0
Text = List ℕ

-- The code units of an ASCII literal.
abbrev pub codes : String → Text
codes String.[] = []
codes (String.◌∷◌ c s) = code c ∷ codes s

abbrev pub is_digit : ℕ → Bool
is_digit c = leb b'0' c && leb c b'9'

abbrev pub IsDigit : ℕ → Type 0
IsDigit c = (b'0' ≤ c) × (c ≤ b'9')

-- The number that a run of digits denotes, read from the left.
abbrev pub digits_from : ℕ → Text → ℕ
digits_from acc [] = acc
digits_from acc (c ∷ cs) = digits_from (acc * 10 + (c - b'0')) cs

-- `String(n)`: the decimal digits of a number, with fuel.
decimal_fuel : ℕ → ℕ → Text
decimal_fuel zero n = []
decimal_fuel (suc f) n =
    let high = decimal_fuel f (n / 10) in
    if ltb n 10 then (b'0' + n) ∷ [] else high ++ (b'0' + n % 10) ∷ []

unfoldable pub decimal : ℕ → Text
unfolding decimal_fuel
decimal n = decimal_fuel (suc n) n

digits_from-append :
    (acc : ℕ) (s : Text) (c : ℕ)
    → digits_from acc (s ++ c ∷ []) ≡ digits_from acc s * 10 + (c - b'0')
digits_from-append acc [] c = refl
digits_from-append acc (d ∷ s) c = digits_from-append (acc * 10 + (d - b'0')) s c

digits_from-decimal_fuel : (f n : ℕ) → n < f → digits_from 0 (decimal_fuel f n) ≡ n
unfolding decimal_fuel
digits_from-decimal_fuel zero n h = absurd (omega arith)
digits_from-decimal_fuel (suc f) n h = elim (Bool-cases (ltb n 10)) [
  | inl small ↦ rw small (omega arith)
  | inr large ↦ rw large (
      digits_from-append 0 (decimal_fuel f (n / 10)) (b'0' + n % 10)
      ∙ omega (arith, digits_from-decimal_fuel f (n / 10) (ground arith)))
]

-- Reading back what was printed.
pub digits_from-decimal : (n : ℕ) → digits_from 0 (decimal n) ≡ n
unfolding decimal
digits_from-decimal n = digits_from-decimal_fuel (suc n) n (omega arith)

decimal_fuel-IsDigit : (f n : ℕ) → All IsDigit (decimal_fuel f n)
unfolding decimal_fuel
decimal_fuel-IsDigit zero n = tt
decimal_fuel-IsDigit (suc f) n = elim (Bool-cases (ltb n 10)) [
  | inl small ↦ rw small (ground arith)
  | inr large ↦ rw large (
      All-append IsDigit (decimal_fuel f (n / 10)) ((b'0' + n % 10) ∷ [])
        (decimal_fuel-IsDigit f (n / 10)) (omega arith))
]

pub decimal-IsDigit : (n : ℕ) → All IsDigit (decimal n)
unfolding decimal
decimal-IsDigit n = decimal_fuel-IsDigit (suc n) n

pub decimal-suc_ne_zero : (n : ℕ) → decimal (suc n) ≢ codes "0"
decimal-suc_ne_zero n p = absurd (omega (arith, digits_from-decimal (suc n), ap (digits_from 0) p))

append_singleton-cons : (s : Text) (c : ℕ) → (d : ℕ) × (t : Text) × (s ++ c ∷ [] ≡ d ∷ t)
append_singleton-cons [] c = (c, [], refl)
append_singleton-cons (d ∷ s) c = (d, s ++ c ∷ [], refl)

-- A printed number is not empty.
pub decimal-cons : (n : ℕ) → (d : ℕ) × (t : Text) × (decimal n ≡ d ∷ t)
unfolding decimal decimal_fuel
decimal-cons n = elim (Bool-cases (ltb n 10)) [
  | inl small ↦ (b'0' + n, [], rw small)
  | inr large ↦
      let (d, t, e) = append_singleton-cons (decimal_fuel n (n / 10)) (b'0' + n % 10) in
      (d, t, rw large e)
]

-- The longest prefix in a class of code units, and what follows it.
abbrev pub take_while : (ℕ → Bool) → Text → Text
take_while p [] = []
take_while p (c ∷ cs) = if p c then c ∷ take_while p cs else []

abbrev pub drop_while : (ℕ → Bool) → Text → Text
drop_while p [] = []
drop_while p (c ∷ cs) = if p c then drop_while p cs else c ∷ cs

abbrev pub InClass : (ℕ → Bool) → Text → Type 0
InClass p = All λ c. p c ≡ true

-- Where the class ends: at the end of the text, or before a code unit outside it.
abbrev pub Stops : (ℕ → Bool) → Text → Type 0
Stops p [] = Unit {0}
Stops p (c ∷ cs) = p c ≡ false

pub take_while-append :
    (p : ℕ → Bool) (s t : Text) → InClass p s → Stops p t → take_while p (s ++ t) ≡ s
take_while-append p [] [] h k = refl
take_while-append p [] (c ∷ t) h k = rw k
take_while-append p (c ∷ s) t h k = rw h.0 (ap (◌∷◌ c) (take_while-append p s t h.1 k))

pub take_while-all : (p : ℕ → Bool) (s : Text) → InClass p s → take_while p s ≡ s
take_while-all p [] h = refl
take_while-all p (c ∷ s) h = rw h.0 (ap (◌∷◌ c) (take_while-all p s h.1))

pub drop_while-append :
    (p : ℕ → Bool) (s t : Text) → InClass p s → Stops p t → drop_while p (s ++ t) ≡ t
drop_while-append p [] [] h k = refl
drop_while-append p [] (c ∷ t) h k = rw k
drop_while-append p (c ∷ s) t h k = rw h.0 (drop_while-append p s t h.1 k)

pub take_while-InClass : (p : ℕ → Bool) (s : Text) → InClass p (take_while p s)
take_while-InClass p [] = tt
take_while-InClass p (c ∷ s) = elim (Bool-cases (p c)) [
  | inl e ↦ rw e (e, take_while-InClass p s)
  | inr e ↦ rw e tt
]

pub drop_while-Stops : (p : ℕ → Bool) (s : Text) → Stops p (drop_while p s)
drop_while-Stops p [] = tt
drop_while-Stops p (c ∷ s) = elim (Bool-cases (p c)) [
  | inl e ↦ rw e (drop_while-Stops p s)
  | inr e ↦ rw e e
]

pub take_while-drop_while : (p : ℕ → Bool) (s : Text) → take_while p s ++ drop_while p s ≡ s
take_while-drop_while p [] = refl
take_while-drop_while p (c ∷ s) = elim (Bool-cases (p c)) [
  | inl e ↦ rw e (ap (◌∷◌ c) (take_while-drop_while p s))
  | inr e ↦ rw e
]

-- `text.split(c)` for a single code unit: the piece being read is the accumulator.
abbrev pub split_from : Text → ℕ → Text → List Text
split_from piece c [] = piece ∷ []
split_from piece c (d ∷ ds) =
    let next = split_from [] c ds in
    let same = split_from (piece ++ d ∷ []) c ds in if eqb d c then piece ∷ next else same

abbrev pub split : ℕ → Text → List Text
split = split_from []

-- `pieces.join(sep)`.
abbrev pub join : Text → List Text → Text
join sep [] = []
join sep (t ∷ []) = t
join sep (t ∷ u ∷ ts) = t ++ (sep ++ join sep (u ∷ ts))

-- Numbers that are printed alike are the same.
pub decimal_injective : (m n : ℕ) → decimal m ≡ decimal n → m ≡ n
decimal_injective m n p = sym (digits_from-decimal m) ∙ ap (digits_from 0) p ∙ digits_from-decimal n
