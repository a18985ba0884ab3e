-- ===== src/Client/Frame/Sending.antt =====
-- What the namespaces send, under a frame.
use socket_io_java.Common.{
  false, ℕ, Option, none, some, Text, [], ◌∷◌, Option-cases, inl, inr, lookup, text_eq, nat_eq,
}
use socket_io_java.Value.{Value, Items}
use socket_io_java.Parser.Packet.{Packet, receipt, with_data}
use socket_io_java.Parser.Encode.{or_empty}
use socket_io_java.Client.State.{Client, Namespace}
use socket_io_java.Client.Namespaces.{
  namespace_packet, create, of, key_of, new_namespace, connect_packet, send, emit_event,
  message_packet, event_packet, with_id, with_callback,
}
use socket_io_java.Client.Frame.{Frame, Keeps, Rel-trans}

module _ (F : Frame) where
  open F use {Rel, same, sends, names, naming}
  open naming use {assumes, Fits, new_fits, flag_fits, callback_fits}

  pub Keeps-namespace_packet :
      (key : Text) (n : Namespace) (p : Packet) → Fits key n → Keeps F (namespace_packet key n p)
  unfolding namespace_packet
  Keeps-namespace_packet key n p h s =
      Rel-trans F (sends (record p { endpoint = some n.name }) s)
        (names key (record n { json = false }) (flag_fits false key n h) _)

  Keeps-create_named :
      (name : Text) → Fits name (new_namespace name) → (s : Client) → Rel s (create (some name) s)
  Keeps-create_named [] h s = names [] (new_namespace []) h s
  Keeps-create_named (c ∷ cs) h s =
      Rel-trans F (names (c ∷ cs) (new_namespace (c ∷ cs)) h s)
        (Keeps-namespace_packet (c ∷ cs) (new_namespace (c ∷ cs)) connect_packet h _)

  Keeps-create :
      (name : Option Text)
      → Fits (key_of name) (new_namespace (or_empty name))
      → (s : Client) → Rel s (create name s)
  Keeps-create none h s =
      Rel-trans F (names (key_of none) (new_namespace []) h s)
        (Keeps-namespace_packet (key_of none) (new_namespace []) connect_packet h _)
  Keeps-create (some name) h s = Keeps-create_named name h s

  pub Keeps-of : (name : Option Text) → Keeps F (of name)
  unfolding of
  Keeps-of name s = elim (Option-cases (lookup (key_of name) s.namespaces)) [
    | inl e ↦
        assumes s _
          (λ k. rw (e, of) (Keeps-create name (new_fits s (key_of name) (or_empty name) k e) s))
    | inr (n, e) ↦ rw (e, of) (same s)
  ]

  pub Keeps-send :
      (key : Text) (n : Namespace) (v : Value) (fn : Option ℕ)
      → Fits key n
      → Keeps F (send key n v fn)
  unfolding send
  Keeps-send key n v none h = Keeps-namespace_packet key n (message_packet n v) h
  Keeps-send key n v (some f) h =
      Keeps-namespace_packet key (with_callback n f) (with_id (message_packet n v) n f receipt)
        (callback_fits f key n h)

  pub Keeps-emit_event :
      (key : Text) (n : Namespace) (name : Value) (args : Items) (fn : Option ℕ)
      → Fits key n
      → Keeps F (emit_event key n name args fn)
  unfolding emit_event
  Keeps-emit_event key n name args none h = Keeps-namespace_packet key n (event_packet name args) h
  Keeps-emit_event key n name args (some f) h =
      Keeps-namespace_packet key (with_callback n f)
        (with_id (event_packet name args) n f with_data) (callback_fits f key n h)
