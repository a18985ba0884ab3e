-- ===== src/Tests/Publishing.antt =====
-- A publication to a socket and two namespaces.
use socket_io_java.Common.{ℕ, ◌≡◌, refl, [], ◌∷◌, ◌++◌, Text, codes}
use socket_io_java.Emitter.{plain, new_emitter, on, once, remove_all_listeners}
use socket_io_java.Client.Publishing.{
  Family, Place, at_socket, at_name, emitter_at, change_at, names_of, publish,
}
use socket_io_java.Client.Publishing.Order.{
  IsPrivate, calls_at, calls_named, change_at-other, names-change_at, calls-publish,
}

abbrev connect_event : Text
connect_event = codes "connect"

abbrev hub : Family
hub = record {
  socket = on (once new_emitter connect_event 7 2) connect_event (plain 1);
  namespaces =
      ([], on new_emitter connect_event (plain 3))
      ∷ (codes "/chat", once new_emitter connect_event 8 4)
      ∷ [];
}

-- Each called function takes all listeners of its own emitter away.
abbrev clearing : Place → ℕ → ℕ → Family → Family
clearing p f a s = change_at s p (remove_all_listeners (emitter_at s p) connect_event)

clearing-IsPrivate : IsPrivate clearing
clearing-IsPrivate = record {
  others = λ p q f a s. change_at-other s p q (remove_all_listeners (emitter_at s p) connect_event);
  names = λ p f a s. names-change_at s p (remove_all_listeners (emitter_at s p) connect_event);
}

hub_calls :
    (publish clearing 5 hub connect_event).calls
    ≡ (at_socket, 2, 5)
      ∷ (at_socket, 1, 5)
      ∷ (at_name [], 3, 5)
      ∷ (at_name (codes "/chat"), 4, 5)
      ∷ []
unfolding publish on once
hub_calls = refl

calls-publish_example :
    (publish clearing 5 hub connect_event).calls
    ≡ calls_at 5 hub connect_event at_socket ++ calls_named 5 hub connect_event (names_of hub)
calls-publish_example =
    calls-publish clearing 5 clearing-IsPrivate hub connect_event ((refl, tt), (tt, tt))
