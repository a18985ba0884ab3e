-- ===== src/Tests/Emitting.antt =====
-- The emitter at concrete listeners.
use socket_io_java.Common.{ℕ, ◌≡◌, refl, [], ◌∷◌, map, Text, codes}
use socket_io_java.Emitter.{
  matches, Emitter, plain, wrapper, new_emitter, on, once, remove_listener, remove_all_listeners,
}
use socket_io_java.Emitter.View.{view, remove_first, view-remove_listener}
use socket_io_java.Emitter.Emission.{called, emit, idle, permanent, calls-emit, view-emit-idle}

abbrev connect_name : Text
connect_name = codes "connect"

-- Function 1, then function 2 once, then function 3.
busy : Emitter
unfolding on once
busy = on (once (on new_emitter connect_name (plain 1)) connect_name 7 2) connect_name (plain 3)

busy-view : view busy connect_name ≡ plain 1 ∷ wrapper 7 connect_name 2 ∷ plain 3 ∷ []
unfolding busy
busy-view = refl

view-remove_listener_example :
    view (remove_listener busy connect_name 2) connect_name
    ≡ remove_first (view busy connect_name) 2
view-remove_listener_example = view-remove_listener busy connect_name 2 connect_name

removed_view : view (remove_listener busy connect_name 2) connect_name ≡ plain 1 ∷ plain 3 ∷ []
unfolding busy remove_listener
removed_view = refl

calls-emit_example :
    (emit {A = ℕ} (λ f a e. remove_all_listeners e connect_name) 0 busy connect_name).calls
    ≡ map {B = ℕ × ℕ} (λ l. (called l, 0)) (view busy connect_name)
calls-emit_example =
    calls-emit {A = ℕ} (λ f a e. remove_all_listeners e connect_name) 0 busy connect_name

busy_emitted :
    view (emit {A = ℕ} idle 0 busy connect_name).emitter connect_name
    ≡ permanent (view busy connect_name)
unfolding busy matches
busy_emitted = view-emit-idle {A = ℕ} 0 busy connect_name (refl, (refl, tt), tt)
