-- ===== src/Pointers/Tracker.antt =====
-- pointerTracker.js: which movements of the mouse are passed on.
use socket_io_java.Common.{
  ℕ, suc, ◌+◌, ◌-◌, ◌≤◌, Bool, true, false, ◌||◌, ◌≡◌, arith, List, [], ◌∷◌, ◌++◌, if◌then◌else◌,
  ltb,
}

-- Whole numbers, and `Math.abs(x - y)`; `negsuc n` is -(n + 1).
pub data ℤ : Type 0 where
  pos negsuc : ℕ → ℤ

abbrev pub distance : ℤ → ℤ → ℕ
distance (pos m) (pos n) = (m - n) + (n - m)
distance (negsuc m) (negsuc n) = (m - n) + (n - m)
distance (pos m) (negsuc n) = suc (m + n)
distance (negsuc m) (pos n) = suc (m + n)

-- A call of one of the three callbacks.
pub data Call : Type 0 where
  updates : ℤ → ℤ → Call
  clears puffs : Call

-- The variables of a pointerTracker, and the calls it has made. A callback is set or not.
pub record Tracker : Type 0 where
  pub threshold : ℕ
  pub last_x : ℤ
  pub last_y : ℤ
  pub has_update : Bool
  pub has_clear : Bool
  pub has_puff : Bool
  pub calls : List Call

-- A pointerTracker when it is made.
abbrev pub new_tracker : ℕ → Tracker
new_tracker threshold = record {
  threshold = threshold;
  last_x = pos 0;
  last_y = pos 0;
  has_update = false;
  has_clear = false;
  has_puff = false;
  calls = [];
}

abbrev pub calls_if : Bool → Call → Tracker → Tracker
calls_if true c t = record t { calls = t.calls ++ c ∷ [] }
calls_if false c t = t

unfoldable pub track : ℤ → ℤ → Tracker → Tracker
track x y t =
    let submit = ltb t.threshold (distance x t.last_x) || ltb t.threshold (distance y t.last_y) in
    if submit then record (calls_if t.has_update (updates x y) t) { last_x = x; last_y = y } else t

unfoldable pub reset : Tracker → Tracker
reset t = calls_if t.has_clear clears (record t { last_x = pos 0; last_y = pos 0 })

unfoldable pub click : Tracker → Tracker
click t = calls_if t.has_puff puffs t

-- The functions that set the callbacks.
abbrev pub update_pointer : Tracker → Tracker
update_pointer t = record t { has_update = true }

abbrev pub clear_pointer : Tracker → Tracker
clear_pointer t = record t { has_clear = true }

abbrev pub puff_pointer : Tracker → Tracker
puff_pointer t = record t { has_puff = true }

distance_refl : (x : ℤ) → distance x x ≡ 0
distance_refl (pos n) = omega arith
distance_refl (negsuc n) = omega arith

-- After a movement the position that was passed on last is within the threshold of the mouse in both directions.
pub track-near :
    (x y : ℤ) (t : Tracker)
    → (distance x (track x y t).last_x ≤ t.threshold)
      × (distance y (track x y t).last_y ≤ t.threshold)
unfolding track
track-near x y t = grind (arith, distance_refl x, distance_refl y)
