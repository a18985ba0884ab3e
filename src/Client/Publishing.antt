-- ===== src/Client/Publishing.antt =====
-- Socket.publish, over the emitters of the socket and of its namespaces, where called functions may change any of them.
pub mod Order
use socket_io_java.Common.{
  ℕ, Bool, true, false, Text, List, [], ◌∷◌, ◌++◌, map, if◌then◌else◌, ◌==◌, text_eq, nat_eq,
}
use socket_io_java.Emitter.{Emitter, Listener, plain, wrapper, new_emitter, remove_listener}
use socket_io_java.Emitter.View.{view}
use socket_io_java.Emitter.Emission.{called}

-- The emitter of a socket, and those of its namespaces in the order in which they were made.
pub record Family : Type 0 where
  pub socket : Emitter
  pub namespaces : List (Text × Emitter)

-- `this` of an emission: the socket, or a namespace.
pub data Place : Type 0 where
  at_socket : Place
  at_name : Text → Place

abbrev pub same_place : Place → Place → Bool
same_place at_socket at_socket = true
same_place (at_name n) (at_name m) = n == m
same_place _ _ = false

abbrev pub emitter_named : List (Text × Emitter) → Text → Emitter
emitter_named [] name = new_emitter
emitter_named ((own, e) ∷ rest) name = if own == name then e else emitter_named rest name

abbrev pub emitter_at : Family → Place → Emitter
emitter_at s at_socket = s.socket
emitter_at s (at_name n) = emitter_named s.namespaces n

abbrev pub change_named : List (Text × Emitter) → Text → Emitter → List (Text × Emitter)
change_named [] name new = []
change_named ((own, e) ∷ rest) name new =
    if own == name then (own, new) ∷ rest else (own, e) ∷ change_named rest name new

abbrev pub change_at : Family → Place → Emitter → Family
change_at s at_socket e = record s { socket = e }
change_at s (at_name n) e = record s { namespaces = change_named s.namespaces n e }

abbrev pub names_of : Family → List Text
names_of s = map (λ e. e.0) s.namespaces

-- What a part of a publication leaves, and the calls that it made: where, which function, and its arguments.
pub record Published {ℓ} (A : Type ℓ) : Type ℓ where
  pub family : Family
  pub calls : List (Place × ℕ × A)

module _ {ℓ} {A : Type ℓ} (effect : Place → ℕ → A → Family → Family) (args : A) where
  -- One call in EventEmitter.emit. A wrapper that `once` made removes itself first.
  unfoldable pub call_in : Place → Family → Listener → Family
  unfolding remove_listener
  call_in p s (plain i) = effect p i args s
  call_in p s (wrapper i name f) =
      effect p f args (change_at s p (remove_listener (emitter_at s p) name i))

  unfoldable pub call_each : Place → Family → List Listener → Published A
  unfolding call_in
  call_each p s [] = record { family = s; calls = [] }
  call_each p s (l ∷ ls) =
      let rest = call_each p (call_in p s l) ls in
      record rest { calls = (p, called l, args) ∷ rest.calls }

  unfoldable pub emit_in : Place → Family → Text → Published A
  unfolding call_each
  emit_in p s name = call_each p s (view (emitter_at s p) name)

  -- The loop of publish, over the names that there are when it begins.
  unfoldable pub emit_named : Family → Text → List Text → Published A
  unfolding emit_in
  emit_named s name [] = record { family = s; calls = [] }
  emit_named s name (n ∷ ns) =
      let here = emit_in (at_name n) s name in
      let rest = emit_named here.family name ns in record rest { calls = here.calls ++ rest.calls }

  unfoldable pub publish : Family → Text → Published A
  unfolding emit_named emit_in
  publish s name =
      let own = emit_in at_socket s name in
      let rest = emit_named own.family name (names_of own.family) in
      record rest { calls = own.calls ++ rest.calls }
