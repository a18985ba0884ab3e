-- ===== src/Tests/Drawing.antt =====
-- The page of the counter, with arrays as d3 has them.
use socket_io_java.Common.{
  ℕ, zero, suc, ◌≤◌, some, ◌≡◌, refl, ap, arith, List, [], ◌∷◌, ◌++◌, if◌then◌else◌, leb, length,
  drop, All,
}
use socket_io_java.Graph.Counter.{Arrays, ticks, receives, resets, Step, run, start, on_reset}
use socket_io_java.Graph.Window.{IsArrays, IsWindow, samples, zeros, run-IsWindow}
use socket_io_java.Graph.Total.{total_shown}

abbrev down : ℕ → List ℕ
down zero = []
down (suc n) = n ∷ down n

abbrev greatest : List ℕ → ℕ
greatest [] = 0
greatest (x ∷ xs) = let m = greatest xs in if leb x m then m else x

abbrev lists : Arrays
lists = record { range = down; max = greatest }

length-down : (n : ℕ) → length (down n) ≡ n
length-down zero = refl
length-down (suc n) = ap suc (length-down n)

All-weaken : (m n : ℕ) (xs : List ℕ) → m ≤ n → All (λ x. x ≤ m) xs → All (λ x. x ≤ n) xs
All-weaken m n [] l h = tt
All-weaken m n (x ∷ xs) l h = (omega (arith, h.0, l), All-weaken m n xs l h.1)

greatest-bound : (xs : List ℕ) → All (λ x. x ≤ greatest xs) xs
greatest-bound [] = tt
greatest-bound (x ∷ xs) = (
  ground arith,
  All-weaken (greatest xs) (greatest (x ∷ xs)) xs (ground arith) (greatest-bound xs),
)

lists-IsArrays : IsArrays lists
lists-IsArrays = record { range = length-down; max = greatest-bound }

abbrev some_steps : List Step
some_steps = receives ∷ receives ∷ ticks 1750 ∷ receives ∷ resets ∷ receives ∷ ticks 2500 ∷ []

counted : samples 0 some_steps ≡ 2 ∷ 1 ∷ []
counted = refl

run-IsWindow_example :
    ((run lists (start lists 1000) some_steps).counts ≡ drop 2 (zeros 243 ++ 2 ∷ 1 ∷ []))
    × IsWindow (run lists (start lists 1000) some_steps)
run-IsWindow_example = run-IsWindow lists 1000 some_steps lists-IsArrays

total_after_reset :
    ((run lists (start lists 1000) (receives ∷ ticks 1750 ∷ receives ∷ [])).shown ≡ some 2)
    × ((run lists
          (on_reset (run lists (start lists 1000) (receives ∷ ticks 1750 ∷ receives ∷ [])))
          (receives ∷ [])).shown
        ≡ some 0)
total_after_reset =
    total_shown lists 1000 (receives ∷ ticks 1750 ∷ receives ∷ []) (receives ∷ []) refl refl
