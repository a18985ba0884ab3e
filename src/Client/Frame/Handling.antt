-- ===== src/Client/Frame/Handling.antt =====
-- The events that open no transport and answer no request, under a frame.
use socket_io_java.Common.{true, false, Option, none, some}
use socket_io_java.Parser.Packet.{no_packet}
use socket_io_java.Parser.Encode.{Json}
use socket_io_java.Client.State.{Client, Transport}
use socket_io_java.Client.Namespaces.{send, emit_event, json_send, json_emit}
use socket_io_java.Client.Packets.{namespace_disconnect, call_ack}
use socket_io_java.Client.Events.{
  Event, sends, json_sends, emits, json_emits, acknowledges, joins, leaves, disconnects,
  socket_opens, socket_closes, socket_fails, receives, request_opens, post_succeeds, post_fails,
  poll_succeeds, poll_fails, iframe_calls, script_calls, script_fails, heartbeat_expires,
  close_expires, awaits_iframe, push_from, over_socket, socket_error, on_data, handle,
}
use socket_io_java.Client.Frame.{Frame, Keeps, Rel-trans, Rel-if}
use socket_io_java.Client.Frame.Sending.{Keeps-of, Keeps-send, Keeps-emit_event}
use socket_io_java.Client.Frame.Closing.{Keeps-transport_on_close, Keeps-transport_on_disconnect}
use socket_io_java.Client.Frame.Receiving.{
  Keeps-disconnect, Keeps-on_error, Keeps-namespace_disconnect, Keeps-call_ack,
}
use socket_io_java.Client.Frame.Arriving.{Keeps-on_data, Keeps-at, Keeps-close_of}

abbrev pub IsPlain : Event → Type 0
IsPlain socket_opens = ⊥
IsPlain request_opens = ⊥
IsPlain (poll_succeeds t) = ⊥
IsPlain poll_fails = ⊥
IsPlain (script_calls t) = ⊥
IsPlain script_fails = ⊥
IsPlain _ = Unit

module _ (F : Frame) where
  open F use {same, flushes, beats_on, naming}
  open naming use {flag_fits}

  Keeps-push_from :
      (f : Client → Client) (o : Option Transport) → Keeps F f → Keeps F (push_from f o)
  Keeps-push_from f none k s = same s
  Keeps-push_from f (some t) k s = Rel-if F (awaits_iframe t) (λ _. k s) (λ _. same s)

  pub Keeps-handle : (js : Json) (e : Event) → IsPlain e → Keeps F (handle js e)
  unfolding handle json_send json_emit
  Keeps-handle js (sends name v fn) h =
      Keeps-at F name (λ k n. send k n v fn) (λ n. Keeps-send F name n v fn)
  Keeps-handle js (json_sends name v fn) h =
      Keeps-at F name (λ k n. json_send k n v fn)
        (λ n h. Keeps-send F name (record n { json = true }) v fn (flag_fits true name n h))
  Keeps-handle js (emits name v args fn) h =
      Keeps-at F name (λ k n. emit_event k n v args fn) (λ n. Keeps-emit_event F name n v args fn)
  Keeps-handle js (json_emits name v args fn) h =
      Keeps-at F name (λ k n. json_emit k n v args fn)
        (λ n h.
          Keeps-emit_event F name (record n { json = true }) v args fn (flag_fits true name n h))
  Keeps-handle js (acknowledges name id args) h =
      Keeps-at F name (λ k n. call_ack k n id args) (λ n. Keeps-call_ack F name n id args)
  Keeps-handle js (joins name) h = Keeps-of F (some name)
  Keeps-handle js (leaves name) h =
      Keeps-at F name namespace_disconnect (Keeps-namespace_disconnect F name)
  Keeps-handle js disconnects h = Keeps-disconnect F
  Keeps-handle js socket_opens h = elim h [ ]
  Keeps-handle js socket_closes h = λ s. Rel-trans F (Keeps-transport_on_close F s) (flushes true _)
  Keeps-handle js socket_fails h = λ s.
      Rel-if F (over_socket s.transport) {s = s} {t = socket_error s} {u = s}
        (λ _. Keeps-on_error F no_packet s) (λ _. same s)
  Keeps-handle js (receives t) h = Keeps-on_data F js t
  Keeps-handle js request_opens h = elim h [ ]
  Keeps-handle js post_succeeds h = flushes false
  Keeps-handle js post_fails h = Keeps-transport_on_close F
  Keeps-handle js (poll_succeeds t) h = elim h [ ]
  Keeps-handle js poll_fails h = elim h [ ]
  Keeps-handle js (iframe_calls t) h =
      λ s. Keeps-push_from (on_data js t) s.transport (Keeps-on_data F js t) s
  Keeps-handle js (script_calls t) h = elim h [ ]
  Keeps-handle js script_fails h = elim h [ ]
  Keeps-handle js heartbeat_expires h =
      λ s. Rel-trans F (beats_on false s) (Keeps-close_of F s.transport _)
  Keeps-handle js close_expires h = Keeps-transport_on_disconnect F
