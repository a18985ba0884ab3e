-- ===== src/Client/Frame/Running.antt =====
-- Every event, under a frame that lets the fields of the transport change.
use socket_io_java.Common.{Bool, true, false, Option, none, some, List, [], ◌∷◌}
use socket_io_java.Parser.Encode.{Json}
use socket_io_java.Client.State.{Client, Transport, answered}
use socket_io_java.Client.Buffer.{on_open, set_buffer}
use socket_io_java.Client.Close.{set_transport, transport_on_close}
use socket_io_java.Client.Events.{
  Event, sends, json_sends, emits, json_emits, acknowledges, joins, leaves, disconnects,
  socket_opens, socket_closes, socket_fails, receives, request_opens, post_succeeds, post_fails,
  poll_succeeds, poll_fails, iframe_calls, script_calls, script_fails, heartbeat_expires,
  close_expires, asks, get_from, get, get_again, get_if_open, opened_transport, awaits_request,
  awaits_script, answer_from, answer, over_socket, on_data, mark_open, transport_on_open, xhr_open,
  handle, run,
}
use socket_io_java.Client.Frame.{Frame, Keeps, Rel-trans, Rel-if}
use socket_io_java.Client.Frame.Attached.{Rel-mark_open}
use socket_io_java.Client.Frame.Closing.{Keeps-transport_on_close}
use socket_io_java.Client.Frame.Arriving.{Keeps-set_close_timeout, Keeps-on_data}
use socket_io_java.Client.Frame.Handling.{Keeps-handle}

module _ (F : Frame) (swaps : (s : Client) (t : Transport) → F.Rel s (set_transport s t))
    (opens : (s : Client) → F.Rel s (on_open s)) where
  open F use {Rel, same, flushes}

  Keeps-transport_on_open : Keeps F transport_on_open
  unfolding transport_on_open
  Keeps-transport_on_open s = Rel-trans F (Rel-mark_open Rel same swaps s) (opens (mark_open s))

  Keeps-get_from : (b : Bool) (t : Transport) → Keeps F (get_from b t)
  Keeps-get_from true t s = swaps s _
  Keeps-get_from false t s = same s

  Keeps-get : Keeps F get
  Keeps-get s = asked s.transport
    where
      asked :
          (o : Option Transport)
          → Rel s (elim o as (λ _. Client) [ none ↦ s | some t ↦ get_from (asks t) t s ])
      asked none = same s
      asked (some t) = Keeps-get_from (asks t) t s

  Keeps-xhr_open : Keeps F xhr_open
  unfolding xhr_open
  Keeps-xhr_open s = Rel-trans F {s = s} {t = set_buffer false s} (flushes false s) (
      Rel-trans F (Keeps-transport_on_open (set_buffer false s))
        (Rel-trans F (Keeps-get _) (Keeps-set_close_timeout F _)))

  Keeps-answer_from :
      (awaits : Transport → Bool) (f : Client → Client)
      → Keeps F f
      → (o : Option Transport) → Keeps F (answer_from awaits f o)
  Keeps-answer_from awaits f k none s = same s
  Keeps-answer_from awaits f k (some t) s =
      Rel-if F (awaits t) {s = s} {t = f (set_transport s (record t { channel = answered }))}
        {u = s} (λ _. Rel-trans F (swaps s _) (k _)) (λ _. same s)

  Keeps-answer :
      (awaits : Transport → Bool) (f : Client → Client) → Keeps F f → Keeps F (answer awaits f)
  unfolding answer
  Keeps-answer awaits f k s = Keeps-answer_from awaits f k s.transport s

  Keeps-get_again : Keeps F get_again
  Keeps-get_again s = Rel-if F s.raised (λ _. same s) (λ _. Keeps-get s)

  Keeps-get_if_open : Keeps F get_if_open
  Keeps-get_if_open s =
      Rel-if F s.raised (λ _. same s)
        (λ _. Rel-if F (opened_transport s.transport) (λ _. Keeps-get s) (λ _. same s))

  Keeps-event : (js : Json) (e : Event) → Keeps F (handle js e)
  unfolding handle
  Keeps-event js socket_opens s =
      Rel-if F (over_socket s.transport)
        (λ _.
          Rel-trans F {s = s} {t = transport_on_open s} (Keeps-transport_on_open s)
            (flushes false _))
        (λ _. same s)
  Keeps-event js request_opens s = Keeps-xhr_open s
  Keeps-event js (poll_succeeds t) s =
      Keeps-answer awaits_request (λ u. get_again (on_data js t u))
        (λ u. Rel-trans F (Keeps-on_data F js t u) (Keeps-get_again _)) s
  Keeps-event js poll_fails s =
      Keeps-answer awaits_request transport_on_close (Keeps-transport_on_close F) s
  Keeps-event js (script_calls t) s =
      Keeps-answer awaits_script (λ u. get_if_open (on_data js t u))
        (λ u. Rel-trans F (Keeps-on_data F js t u) (Keeps-get_if_open _)) s
  Keeps-event js script_fails s =
      Keeps-answer awaits_script transport_on_close (Keeps-transport_on_close F) s
  Keeps-event js (sends name v fn) s = Keeps-handle F js (sends name v fn) tt s
  Keeps-event js (json_sends name v fn) s = Keeps-handle F js (json_sends name v fn) tt s
  Keeps-event js (emits name v args fn) s = Keeps-handle F js (emits name v args fn) tt s
  Keeps-event js (json_emits name v args fn) s = Keeps-handle F js (json_emits name v args fn) tt s
  Keeps-event js (acknowledges name id args) s = Keeps-handle F js (acknowledges name id args) tt s
  Keeps-event js (joins name) s = Keeps-handle F js (joins name) tt s
  Keeps-event js (leaves name) s = Keeps-handle F js (leaves name) tt s
  Keeps-event js disconnects s = Keeps-handle F js disconnects tt s
  Keeps-event js socket_closes s = Keeps-handle F js socket_closes tt s
  Keeps-event js socket_fails s = Keeps-handle F js socket_fails tt s
  Keeps-event js (receives t) s = Keeps-handle F js (receives t) tt s
  Keeps-event js post_succeeds s = Keeps-handle F js post_succeeds tt s
  Keeps-event js post_fails s = Keeps-handle F js post_fails tt s
  Keeps-event js (iframe_calls t) s = Keeps-handle F js (iframe_calls t) tt s
  Keeps-event js heartbeat_expires s = Keeps-handle F js heartbeat_expires tt s
  Keeps-event js close_expires s = Keeps-handle F js close_expires tt s

  pub Keeps-run : (js : Json) (es : List Event) → Keeps F (run js es)
  unfolding run
  Keeps-run js [] s = same s
  Keeps-run js (e ∷ es) s = Rel-trans F (Keeps-event js e s) (Keeps-run js es _)
