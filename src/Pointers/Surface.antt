-- ===== src/Pointers/Surface.antt =====
-- surface.js and main.js: what a page does with its mouse, and with the events of the other pages.
use mathlib.Core.Path.{subst}
use socket_io_java.Common.{
  ◌≤◌, Bool, true, false, not, ◌≡◌, refl, sym, ap, ◌∙◌, ◌⊎◌, inl, inr, arith, Option, none, some,
  Text, List, [], ◌∷◌, ◌++◌, if◌then◌else◌, ◌||◌, ltb, ◌==◌, text_eq, nat_eq, beq_refl, lookup,
  insert, delete, lookup-insert, lookup-delete, map,
}
use socket_io_java.Pointers.Tracker.{
  ℤ, pos, distance, Call, updates, clears, puffs, Tracker, calls_if, new_tracker, track, reset,
  click, update_pointer, clear_pointer, puff_pointer, track-near,
}

-- The mouse on the surface, with its place there.
pub data Mouse : Type 0 where
  moves : ℤ → ℤ → Mouse
  leaves clicks : Mouse

-- The handlers that a surface sets on its element, once a tracker is attached.
unfoldable pub on_mouse : Mouse → Tracker → Tracker
unfolding track reset click
on_mouse (moves x y) t = track x y t
on_mouse leaves t = reset t
on_mouse clicks t = click t

-- The tracker of a page: main.js sets the three callbacks, and each emits an event with the id of the page.
abbrev pub page_tracker : Tracker
page_tracker = puff_pointer (clear_pointer (update_pointer (new_tracker 15)))

-- What an event of a page is: its id, and the call.
abbrev pub emitted : Text → List Call → List (Text × Call)
emitted id = map λ c. (id, c)

-- The pointers on a surface: the elements that are there, by the ids of the pages, and their places relative to the surface.
abbrev pub Pointers : Type 0
Pointers = List (Text × (ℤ × ℤ))

-- `updatePointer`, `clearPointer` and `puffPointer` of a surface; the last one is an animation.
unfoldable pub show : Text → Call → Pointers → Pointers
unfolding insert delete
show id (updates x y) ps = insert id (x, y) ps
show id clears ps = delete id ps
show id puffs ps = ps

-- The handlers of main.js for the events of the server.
unfoldable pub on_event : Text → Text × Call → Pointers → Pointers
unfolding show
on_event own (id, c) ps = if not (own == id) then show id c ps else ps

unfoldable pub on_events : Text → List (Text × Call) → Pointers → Pointers
unfolding on_event
on_events own [] ps = ps
on_events own (e ∷ es) ps = on_events own es (on_event own e ps)

-- What the calls of a page make of what another page knows of its pointer.
abbrev pub place_after : List Call → Option (ℤ × ℤ) → Option (ℤ × ℤ)
place_after [] o = o
place_after (updates x y ∷ cs) o = place_after cs (some (x, y))
place_after (clears ∷ cs) o = place_after cs none
place_after (puffs ∷ cs) o = place_after cs o

lookup-show :
    (id asked : Text) (c : Call) (ps : Pointers)
    → lookup asked (show id c ps)
      ≡ (if id == asked then place_after (c ∷ []) (lookup asked ps) else lookup asked ps)
unfolding show
lookup-show id asked (updates x y) ps = lookup-insert id asked (x, y) ps
lookup-show id asked clears ps = lookup-delete id asked ps
lookup-show id asked puffs ps = same (id == asked) (lookup asked ps)
  where
    same : {A : Type 0} (b : Bool) (a : A) → a ≡ (if b then a else a)
    same true a = refl
    same false a = refl

lookup-on_events :
    (own id : Text) (cs : List Call) (ps : Pointers)
    → (own == id) ≡ false
    → lookup id (on_events own (emitted id cs) ps) ≡ place_after cs (lookup id ps)
unfolding on_events on_event
lookup-on_events own id [] ps h = refl
lookup-on_events own id (c ∷ cs) ps h =
    let shown = ap (λ b. if not b then show id c ps else ps) h in
    lookup-on_events own id cs (on_event own (id, c) ps) h
    ∙ ap (place_after cs) (
        ap (lookup id) shown
        ∙ lookup-show id id c ps
        ∙ ap (λ b. if b then place_after (c ∷ []) (lookup id ps) else lookup id ps) (beq_refl id))
    ∙ first c cs (lookup id ps)
  where
    first :
        (c : Call) (cs : List Call) (o : Option (ℤ × ℤ))
        → place_after cs (place_after (c ∷ []) o) ≡ place_after (c ∷ cs) o
    first (updates x y) cs o = refl
    first clears cs o = refl
    first puffs cs o = refl

place_after-append :
    (cs ds : List Call) (o : Option (ℤ × ℤ))
    → place_after (cs ++ ds) o ≡ place_after ds (place_after cs o)
place_after-append [] ds o = refl
place_after-append (updates x y ∷ cs) ds o = place_after-append cs ds (some (x, y))
place_after-append (clears ∷ cs) ds o = place_after-append cs ds none
place_after-append (puffs ∷ cs) ds o = place_after-append cs ds o

-- The place that the calls have given, if any, is the last one passed on; with none, that is the corner.
abbrev Shows : Tracker → Option (ℤ × ℤ) → Type 0
Shows t o = (o ≡ some (t.last_x, t.last_y)) ⊎ ((o ≡ none) × (t.last_x ≡ pos 0) × (t.last_y ≡ pos 0))

-- The tracker of a page, as it was set up, with what its calls show.
abbrev IsLinked : Tracker → Type 0
IsLinked t =
    (t.threshold ≡ 15)
    × (t.has_update ≡ true)
    × (t.has_clear ≡ true)
    × (t.has_puff ≡ true)
    × Shows t (place_after t.calls none)

called_lem :
    (b : Bool) (c : Call) (t : Tracker)
    → b ≡ true
    → calls_if b c t ≡ record t { calls = t.calls ++ c ∷ [] }
called_lem b c t e = ap (λ b. calls_if b c t) e

IsLinked-if : (b : Bool) (t u : Tracker) → IsLinked t → IsLinked u → IsLinked (if b then t else u)
IsLinked-if true t u h k = h
IsLinked-if false t u h k = k

on_mouse-IsLinked : (m : Mouse) (t : Tracker) → IsLinked t → IsLinked (on_mouse m t)
unfolding on_mouse track reset click
on_mouse-IsLinked (moves x y) t (h, u, c, p, s) =
    IsLinked-if (ltb t.threshold (distance x t.last_x) || ltb t.threshold (distance y t.last_y)) _ t
      (subst (λ v. IsLinked (record v { last_x = x; last_y = y }))
        (sym (called_lem t.has_update (updates x y) t u))
        (h, u, c, p, inl (place_after-append t.calls (updates x y ∷ []) none)))
      (h, u, c, p, s)
on_mouse-IsLinked leaves t (h, u, c, p, s) =
    subst IsLinked
      (sym (called_lem t.has_clear clears (record t { last_x = pos 0; last_y = pos 0 }) c))
      (h, u, c, p, inr (place_after-append t.calls (clears ∷ []) none, refl, refl))
on_mouse-IsLinked clicks t (h, u, c, p, s) =
    subst IsLinked (sym (called_lem t.has_puff puffs t p))
      (h, u, c, p, subst (Shows t) (sym (place_after-append t.calls (puffs ∷ []) none)) s)

abbrev pub on_mouses : List Mouse → Tracker → Tracker
on_mouses [] t = t
on_mouses (m ∷ ms) t = on_mouses ms (on_mouse m t)

on_mouses-IsLinked : (ms : List Mouse) (t : Tracker) → IsLinked t → IsLinked (on_mouses ms t)
on_mouses-IsLinked [] t h = h
on_mouses-IsLinked (m ∷ ms) t h = on_mouses-IsLinked ms (on_mouse m t) (on_mouse-IsLinked m t h)

near :
    (x y : ℤ) (t : Tracker) (o : Option (ℤ × ℤ))
    → distance x t.last_x ≤ 15
    → distance y t.last_y ≤ 15
    → Shows t o
    → ((p : ℤ × ℤ) × (o ≡ some p) × (distance x p.0 ≤ 15) × (distance y p.1 ≤ 15))
      ⊎ ((o ≡ none) × (distance x (pos 0) ≤ 15) × (distance y (pos 0) ≤ 15))
near x y t o h k (inl e) = inl ((t.last_x, t.last_y), e, h, k)
near x y t o h k (inr (e, f, g)) =
    inr (e, subst (λ v. distance x v ≤ 15) f h, subst (λ v. distance y v ≤ 15) g k)

-- Whatever a mouse has done on one page, after its next movement another page that got the events, in order, shows the
-- pointer within 15 pixels of it in both directions; or shows none, and the mouse is as near to the corner of the surface.
pub pointer_follows :
    (own id : Text) (ms : List Mouse) (x y : ℤ)
    → (own == id) ≡ false
    → let t = on_mouse (moves x y) (on_mouses ms page_tracker) in
      let o = lookup id (on_events own (emitted id t.calls) []) in
      ((p : ℤ × ℤ) × (o ≡ some p) × (distance x p.0 ≤ 15) × (distance y p.1 ≤ 15))
      ⊎ ((o ≡ none) × (distance x (pos 0) ≤ 15) × (distance y (pos 0) ≤ 15))
unfolding on_mouse lookup
pointer_follows own id ms x y h =
    let t = on_mouses ms page_tracker in
    let linked =
      on_mouses-IsLinked ms page_tracker (refl, refl, refl, refl, inr (refl, refl, refl)) in
    let u = on_mouse (moves x y) t in
    let close = track-near x y t in
    near x y u _ (omega (arith, close.0, linked.0)) (omega (arith, close.1, linked.0)) (
      subst (Shows u) (sym (lookup-on_events own id u.calls [] h))
        (on_mouse-IsLinked (moves x y) t linked).4)
