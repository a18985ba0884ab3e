-- ===== src/Emitter/Emission.antt =====
-- EventEmitter.emit: a snapshot of the listeners is called in order. What a called function does to
-- the emitter is the parameter `effect`.
use socket_io_java.Common.{
  ℕ, ◌≡◌, refl, ap, ◌∙◌, Bool, true, false, List, [], ◌∷◌, ◌++◌, map, Text, text_eq, append_assoc,
  All, beq_refl, sym, nat_eq,
}
use socket_io_java.Emitter.{
  Emitter, Listener, plain, wrapper, Slot, unset, one, many, slot, remove_listener, matches,
  to_array,
}
use socket_io_java.Emitter.View.{view, view-remove_listener, remove_first}

-- The function that a call of the listener ends in.
abbrev pub called : Listener → ℕ
called (plain i) = i
called (wrapper i name f) = f

-- What `emit` returns, with the emitter afterwards and the calls that it made.
pub record Emission {ℓ} (A : Type ℓ) : Type ℓ where
  pub emitter : Emitter
  pub calls : List (ℕ × A)
  pub found : Bool

module _ {ℓ} {A : Type ℓ} (effect : ℕ → A → Emitter → Emitter) (args : A) where
  -- A wrapper removes itself before it calls its function.
  unfoldable pub invoke : Emitter → Listener → Emitter
  unfolding remove_listener
  invoke e (plain i) = effect i args e
  invoke e (wrapper i name f) = effect f args (remove_listener e name i)

  unfoldable pub invoke_all : Emitter → List Listener → Emission A
  unfolding invoke
  invoke_all e [] = record { emitter = e; calls = []; found = true }
  invoke_all e (l ∷ ls) =
      let rest = invoke_all (invoke e l) ls in record rest { calls = (called l, args) ∷ rest.calls }

  abbrev emit_slot : Emitter → Slot → Emission A
  emit_slot e unset = record { emitter = e; calls = []; found = false }
  emit_slot e (one l) = record { emitter = invoke e l; calls = (called l, args) ∷ []; found = true }
  emit_slot e (many ls) = invoke_all e ls

  unfoldable pub emit : Emitter → Text → Emission A
  unfolding invoke_all slot
  emit e name = emit_slot e (slot e name)

  calls-invoke_all :
      (e : Emitter) (ls : List Listener) → (invoke_all e ls).calls ≡ map (λ l. (called l, args)) ls
  unfolding invoke_all
  calls-invoke_all e [] = refl
  calls-invoke_all e (l ∷ ls) = ap (◌∷◌ (called l, args)) (calls-invoke_all (invoke e l) ls)

  calls-emit_slot :
      (e : Emitter) (s : Slot) → (emit_slot e s).calls ≡ map (λ l. (called l, args)) (to_array s)
  calls-emit_slot e unset = refl
  calls-emit_slot e (one l) = refl
  calls-emit_slot e (many ls) = calls-invoke_all e ls

  -- `emit` calls the functions of the listeners that the name has when it begins, each once and in
  -- order, with the arguments given, whatever the called functions do to the emitter meanwhile.
  pub calls-emit :
      (e : Emitter) (name : Text) → (emit e name).calls ≡ map (λ l. (called l, args)) (view e name)
  unfolding emit
  calls-emit e name = calls-emit_slot e (slot e name)

-- A function that leaves the emitter alone.
abbrev pub idle {ℓ} : {A : Type ℓ} → ℕ → A → Emitter → Emitter
idle f args e = e

-- No listener that stands before the one of identity `i` is found in its place.
abbrev Unmatched : ℕ → List Listener → Type 0
Unmatched i = All λ l. matches l i ≡ false

-- The listeners of a name can be told apart: each wrapper was made for the name, and nothing
-- before it is or wraps the function that it removes.
abbrev pub IsSeparate : Text → List Listener → List Listener → Type 0
IsSeparate name before [] = Unit {0}
IsSeparate name before (plain i ∷ ls) = IsSeparate name (before ++ plain i ∷ []) ls
IsSeparate name before (wrapper i n f ∷ ls) =
    (n ≡ name) × Unmatched i before × IsSeparate name before ls

-- The listeners that `once` did not make.
abbrev pub permanent : List Listener → List Listener
permanent [] = []
permanent (plain i ∷ ls) = plain i ∷ permanent ls
permanent (wrapper i n f ∷ ls) = permanent ls

remove_first-append :
    (before ls : List Listener) (i : ℕ) (l : Listener)
    → Unmatched i before
    → matches l i ≡ true
    → remove_first (before ++ l ∷ ls) i ≡ before ++ ls
remove_first-append [] ls i l u h = rw h
remove_first-append (k ∷ before) ls i l u h =
    rw u.0 (ap (◌∷◌ k) (remove_first-append before ls i l u.1 h))

matches_self : (i : ℕ) (name : Text) (f : ℕ) → matches (wrapper i name f) i ≡ true
unfolding matches
matches_self i name f = rw (beq_refl i)

view-invoke_all :
    {A : Type 0} (args : A) (e : Emitter) (name : Text) (before ls : List Listener)
    → IsSeparate name before ls
    → view e name ≡ before ++ ls
    → view (invoke_all idle args e ls).emitter name ≡ before ++ permanent ls
unfolding invoke_all
view-invoke_all args e name before [] s h = h
view-invoke_all args e name before (plain i ∷ ls) s h =
    view-invoke_all args e name (before ++ plain i ∷ []) ls s
      (h ∙ sym (append_assoc before (plain i ∷ []) ls))
    ∙ append_assoc before (plain i ∷ []) (permanent ls)
view-invoke_all args e name before (wrapper i n f ∷ ls) s h =
    view-invoke_all args (remove_listener e n i) name before ls s.2 (
      removed e n i (before ++ ls) s.0
        (rw h (remove_first-append before ls i (wrapper i n f) s.1 (matches_self i n f))))
  where
    removed :
        (e : Emitter) (n : Text) (i : ℕ) (r : List Listener)
        → n ≡ name
        → remove_first (view e name) i ≡ r
        → view (remove_listener e n i) name ≡ r
    removed e n i r p q = rw p (view-remove_listener e name i name ∙ rw (beq_refl name) q)

-- Where the called functions leave the emitter alone and its listeners can be told apart, what stays under the
-- name after an emission are the listeners that `once` did not make: a function given to `once` is
-- called by the first emission only.
pub view-emit-idle :
    {A : Type 0} (args : A) (e : Emitter) (name : Text)
    → IsSeparate name [] (view e name)
    → view (emit idle args e name).emitter name ≡ permanent (view e name)
unfolding emit
view-emit-idle args e name s = emitted (slot e name) refl s
  where
    emitted :
        (t : Slot)
        → slot e name ≡ t
        → IsSeparate name [] (to_array t)
        → view (emit_slot idle args e t).emitter name ≡ permanent (to_array t)
    emitted unset h s = rw h
    emitted (one l) h s = view-invoke_all args e name [] (l ∷ []) s (rw h)
    emitted (many ls) h s = view-invoke_all args e name [] ls s (rw h)
