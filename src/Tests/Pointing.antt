-- ===== src/Tests/Pointing.antt =====
-- Two pages that share their pointers.
use socket_io_java.Common.{◌≤◌, some, none, ◌≡◌, refl, ◌⊎◌, List, [], ◌∷◌, codes, lookup}
use socket_io_java.Pointers.Tracker.{ℤ, pos, negsuc, distance}
use socket_io_java.Pointers.Surface.{
  Mouse, moves, leaves, clicks, on_mouse, on_mouses, on_events, emitted, page_tracker,
  pointer_follows,
}

abbrev path : List Mouse
path = moves (pos 40) (pos 20) ∷ clicks ∷ moves (pos 50) (pos 25) ∷ []

pointer_follows_example :
    let t = on_mouse (moves (pos 70) (negsuc 2)) (on_mouses path page_tracker) in
    let o = lookup (codes "a") (on_events (codes "b") (emitted (codes "a") t.calls) []) in
    ((p : ℤ × ℤ) × (o ≡ some p) × (distance (pos 70) p.0 ≤ 15) × (distance (negsuc 2) p.1 ≤ 15))
    ⊎ ((o ≡ none) × (distance (pos 70) (pos 0) ≤ 15) × (distance (negsuc 2) (pos 0) ≤ 15))
pointer_follows_example = pointer_follows (codes "b") (codes "a") path (pos 70) (negsuc 2) refl

-- A mouse that leaves and comes back near the corner is not shown.
hidden :
    let t =
      on_mouses (moves (pos 40) (pos 20) ∷ leaves ∷ moves (pos 10) (pos 15) ∷ []) page_tracker in
    lookup (codes "a") (on_events (codes "b") (emitted (codes "a") t.calls) []) ≡ none
unfolding lookup on_events on_mouse
hidden = refl
