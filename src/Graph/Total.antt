-- ===== src/Graph/Total.antt =====
-- The total that graph-ic.js shows.
use socket_io_java.Common.{
  ℕ, zero, suc, ◌+◌, ◌-◌, Bool, true, false, Option, none, some, ◌≡◌, refl, ap, ◌∙◌, arith, List,
  [], ◌∷◌,
}
use socket_io_java.Graph.Counter.{
  Arrays, Counter, new_counter, tick, on_data, on_reset, Step, ticks, receives, resets, step, run,
  start,
}

-- The events of a run.
abbrev pub received : List Step → ℕ
received [] = 0
received (receives ∷ steps) = suc (received steps)
received (ticks now ∷ steps) = received steps
received (resets ∷ steps) = received steps

-- A run that no reset is in.
abbrev pub is_steady : List Step → Bool
is_steady [] = true
is_steady (receives ∷ steps) = is_steady steps
is_steady (ticks now ∷ steps) = is_steady steps
is_steady (resets ∷ steps) = false

-- The text that the element has when the last of some events came, if it had one before them.
abbrev shown_after : ℕ → ℕ → Option ℕ → Option ℕ
shown_after n zero before = before
shown_after n (suc k) before = some (n + k)

run-shown :
    (d3 : Arrays) (c : Counter) (steps : List Step)
    → is_steady steps ≡ true
    → (run d3 c steps).shown ≡ shown_after c.total (received steps) c.shown
unfolding run step tick on_data on_reset
run-shown d3 c [] h = refl
run-shown d3 c (ticks now ∷ steps) h = run-shown d3 (tick d3 now c) steps h
run-shown d3 c (receives ∷ steps) h = run-shown d3 (on_data c) steps h ∙ later (received steps)
  where
    later :
        (k : ℕ) → shown_after (suc c.total) k (some c.total) ≡ shown_after c.total (suc k) c.shown
    later zero = ap some (omega arith)
    later (suc k) = ap some (omega arith)
run-shown d3 c (resets ∷ steps) h = cc

-- A number of events as the page is to show it: nothing is shown before the first one.
abbrev pub as_shown : ℕ → Option ℕ
as_shown zero = none
as_shown (suc n) = some (suc n)

-- Up to the first reset the page shows the number of events, if any came; after a reset it shows one less than came since then,
-- and 0 if none did.
pub total_shown :
    (d3 : Arrays) (now : ℕ) (before after : List Step)
    → is_steady before ≡ true
    → is_steady after ≡ true
    → ((run d3 (start d3 now) before).shown ≡ as_shown (received before))
      × ((run d3 (on_reset (run d3 (start d3 now) before)) after).shown ≡ some (received after - 1))
unfolding start tick new_counter on_reset
total_shown d3 now before after h k = (
  run-shown d3 (start d3 now) before h ∙ all (received before),
  run-shown d3 (on_reset (run d3 (start d3 now) before)) after k ∙ less (received after),
)
  where
    all : (n : ℕ) → shown_after 1 n none ≡ as_shown n
    all zero = refl
    all (suc n) = ap some (omega arith)

    less : (n : ℕ) → shown_after 0 n (some 0) ≡ some (n - 1)
    less zero = refl
    less (suc n) = ap some (omega arith)
