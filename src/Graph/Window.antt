-- ===== src/Graph/Window.antt =====
-- The line of graph-ic.js: always the last counts, each within its bound.
use socket_io_java.Common.{
  ℕ, suc, ◌≤◌, ◌≡◌, refl, sym, ap, ◌∙◌, arith, List, [], ◌∷◌, ◌++◌, map, zero, take-length_append,
  drop, length, length-append, append_assoc, append-nil, take, All, All-append,
}
use mathlib.Core.Path.{subst}
use socket_io_java.Graph.Counter.{
  Arrays, Frame, Counter, points, new_counter, capped, tick, on_data, on_reset, Step, ticks,
  receives, resets, step, run, start,
}

-- What the ticks of a run add, from the steps alone: the number of events since the tick or the reset before, at most 100.
abbrev pub samples : ℕ → List Step → List ℕ
samples n [] = []
samples n (ticks now ∷ steps) = capped n ∷ samples 0 steps
samples n (receives ∷ steps) = samples (suc n) steps
samples n (resets ∷ steps) = samples 0 steps

drop-suc :
    (n : ℕ) (x : ℕ) (xs ys : List ℕ)
    → drop n (drop 1 (xs ++ x ∷ []) ++ ys) ≡ drop (suc n) (xs ++ x ∷ ys)
drop-suc n x [] ys = refl
drop-suc n x (z ∷ xs) ys = ap (drop n) (append_assoc xs (x ∷ []) ys)

run-counts :
    (d3 : Arrays) (c : Counter) (steps : List Step)
    → (run d3 c steps).counts
      ≡ drop (length (samples c.count steps)) (c.counts ++ samples c.count steps)
unfolding run step tick on_data on_reset
run-counts d3 c [] = sym (append-nil c.counts)
run-counts d3 c (ticks now ∷ steps) =
    run-counts d3 (tick d3 now c) steps
    ∙ drop-suc (length (samples 0 steps)) (capped c.count) c.counts (samples 0 steps)
run-counts d3 c (receives ∷ steps) = run-counts d3 (on_data c) steps
run-counts d3 c (resets ∷ steps) = run-counts d3 (on_reset c) steps

-- What d3 promises: that many elements, and no element above the maximum.
pub record IsArrays (d3 : Arrays) : Type 0 where
  pub range : (n : ℕ) → length (d3.range n) ≡ n
  pub max : (xs : List ℕ) → All (λ x. x ≤ d3.max xs) xs

-- A drawing has one point more than the window; each count is at most 100, and each but the newest, which is still to the
-- right of the clipped region, is within the vertical axis.
pub record IsDrawn (f : Frame) : Type 0 where
  pub size : length f.line ≡ suc points
  pub bounded : All (λ x. x ≤ 100) f.line
  pub inside : All (λ x. x ≤ f.top) (take points f.line)

pub record IsWindow (c : Counter) : Type 0 where
  pub size : length c.counts ≡ points
  pub bounded : All (λ x. x ≤ 100) c.counts
  pub drawn : All IsDrawn c.frames

capped-bound : (n : ℕ) → capped n ≤ 100
capped-bound n = ground arith

All-drop : (xs : List ℕ) → All (λ x. x ≤ 100) xs → All (λ x. x ≤ 100) (drop 1 xs)
All-drop [] h = tt
All-drop (x ∷ xs) h = h.1

length-drop : (xs : List ℕ) (n : ℕ) → length xs ≡ suc n → length (drop 1 xs) ≡ n
length-drop [] n h = omega (arith, h)
length-drop (x ∷ xs) n h = omega (arith, h)

take_front : (xs : List ℕ) (n x : ℕ) → length xs ≡ n → take n (xs ++ x ∷ []) ≡ xs
take_front xs n x h = ap (λ m. take m (xs ++ x ∷ [])) (sym h) ∙ take-length_append xs (x ∷ [])

tick-IsWindow :
    (d3 : Arrays) (now : ℕ) (c : Counter) → IsArrays d3 → IsWindow c → IsWindow (tick d3 now c)
unfolding tick
tick-IsWindow d3 now c d h = record {
  size = length-drop (c.counts ++ capped c.count ∷ []) points pushed_size;
  bounded = All-drop (c.counts ++ capped c.count ∷ []) pushed_bounded;
  drawn = All-append IsDrawn c.frames _ h.drawn (
    record {
      size = pushed_size;
      bounded = pushed_bounded;
      inside =
          subst (All (λ x. x ≤ d3.max c.counts))
            (sym (take_front c.counts points (capped c.count) h.size)) (d.max c.counts);
    },
    tt,
  );
}
  where
    pushed_size : length (c.counts ++ capped c.count ∷ []) ≡ suc points
    pushed_size = omega (arith, h.size, length-append c.counts (capped c.count ∷ []))

    pushed_bounded : All (λ x. x ≤ 100) (c.counts ++ capped c.count ∷ [])
    pushed_bounded =
        All-append (λ x. x ≤ 100) c.counts (capped c.count ∷ []) h.bounded
          (capped-bound c.count, tt)

steps-IsWindow :
    (d3 : Arrays) (c : Counter) (steps : List Step)
    → IsArrays d3
    → IsWindow c
    → IsWindow (run d3 c steps)
unfolding run step on_data on_reset
steps-IsWindow d3 c [] d h = h
steps-IsWindow d3 c (ticks now ∷ steps) d h =
    steps-IsWindow d3 (tick d3 now c) steps d (tick-IsWindow d3 now c d h)
steps-IsWindow d3 c (receives ∷ steps) d h =
    steps-IsWindow d3 (on_data c) steps d
      (record { size = h.size; bounded = h.bounded; drawn = h.drawn })
steps-IsWindow d3 c (resets ∷ steps) d h =
    steps-IsWindow d3 (on_reset c) steps d
      (record { size = h.size; bounded = h.bounded; drawn = h.drawn })

abbrev pub zeros : ℕ → List ℕ
zeros zero = []
zeros (suc n) = 0 ∷ zeros n

map-zeros : (xs : List ℕ) → map (λ i. 0) xs ≡ zeros (length xs)
map-zeros [] = refl
map-zeros (x ∷ xs) = ap (◌∷◌ 0) (map-zeros xs)

zeros-bounded : (n : ℕ) → All (λ x. x ≤ 100) (zeros n)
zeros-bounded zero = tt
zeros-bounded (suc n) = (omega arith, zeros-bounded n)

length-zeros : (n : ℕ) → length (zeros n) ≡ n
length-zeros zero = refl
length-zeros (suc n) = omega (arith, length-zeros n)

new_counter-counts : (d3 : Arrays) → IsArrays d3 → (new_counter d3).counts ≡ zeros points
unfolding new_counter
new_counter-counts d3 d = map-zeros (d3.range points) ∙ ap zeros (d.range points)

run-start-IsWindow :
    (d3 : Arrays) (now : ℕ) (steps : List Step)
    → IsArrays d3
    → IsWindow (run d3 (start d3 now) steps)
unfolding start new_counter
run-start-IsWindow d3 now steps d =
    steps-IsWindow d3 (start d3 now) steps d (tick-IsWindow d3 now (new_counter d3) d fresh)
  where
    fresh : IsWindow (new_counter d3)
    fresh = record {
      size = ap length (new_counter-counts d3 d) ∙ length-zeros points;
      bounded = subst (All (λ x. x ≤ 100)) (sym (new_counter-counts d3 d)) (zeros-bounded points);
      drawn = tt;
    }

window_counts :
    (d3 : Arrays) (now : ℕ) (steps : List Step)
    → IsArrays d3
    → (run d3 (start d3 now) steps).counts
      ≡ drop (length (samples 0 steps)) (zeros points ++ samples 0 steps)
unfolding start tick
window_counts d3 now steps d =
    run-counts d3 (start d3 now) steps
    ∙ ap (λ xs. drop (length (samples 0 steps)) (xs ++ samples 0 steps)) first
  where
    first : (start d3 now).counts ≡ zeros points
    first = ap (λ xs. drop 1 (xs ++ 0 ∷ [])) (new_counter-counts d3 d)

-- After any run the window is what is left of 243 zeros and the counts of the ticks, after one element is dropped at each tick: the
-- newest 243 counts, in order and each at most 100. Every drawing has one count more, and all but its newest are within its vertical
-- axis. This is so for arrays of d3 that have the length asked for, and a maximum.
pub run-IsWindow :
    (d3 : Arrays) (now : ℕ) (steps : List Step)
    → IsArrays d3
    → ((run d3 (start d3 now) steps).counts
        ≡ drop (length (samples 0 steps)) (zeros points ++ samples 0 steps))
      × IsWindow (run d3 (start d3 now) steps)
run-IsWindow d3 now steps d = (window_counts d3 now steps d, run-start-IsWindow d3 now steps d)
