-- ===== src/Client/Polling/Asking.antt =====
-- Every event but an exception keeps the polls going.
use socket_io_java.Common.{
  Bool, true, false, Option, none, some, ◌≡◌, refl, ap, ◌∙◌, ◌⊎◌, inl, inr, ◌≢◌, arith,
  if◌then◌else◌, Text, List, [], ◌∷◌,
}
use socket_io_java.Parser.Encode.{Json}
use socket_io_java.Client.State.{Client, Transport, xhr_polling, waiting, answered, not_open}
use socket_io_java.Client.Close.{set_transport, transport_on_close}
use socket_io_java.Client.Events.{
  Event, sends, json_sends, emits, json_emits, acknowledges, joins, leaves, disconnects,
  socket_opens, socket_closes, socket_fails, receives, request_opens, post_succeeds, post_fails,
  poll_succeeds, poll_fails, iframe_calls, script_calls, script_fails, heartbeat_expires,
  close_expires, get, get_again, get_if_open, awaits_request, awaits_script, answer_from, answer,
  on_data, handle, run,
}
use socket_io_java.Client.Frame.Arriving.{Keeps-on_data}
use socket_io_java.Client.Frame.Handling.{Keeps-handle, IsPlain}
use socket_io_java.Client.Polling.{Follows, FollowsOption, FollowsOption-Polls, Polls}
use socket_io_java.Client.Polling.Framed.{following}
use socket_io_java.Client.Polling.Steps.{
  xhr_open-Polls, transport_on_close-Polls, get_again-Polls, answer-Polls, socket_opens-Polls,
  script_calls-Polls,
}

plain-Polls :
    (js : Json) (e : Event) (s : Client)
    → IsPlain e
    → Polls s.transport
    → Polls (handle js e s).transport
unfolding following
plain-Polls js e s p h = FollowsOption-Polls s.transport _ (Keeps-handle following js e p s) h

event-Polls :
    (js : Json) (e : Event) (s : Client)
    → (handle js e s).raised ≡ false
    → Polls s.transport
    → Polls (handle js e s).transport
unfolding handle
event-Polls js socket_opens s r h = socket_opens-Polls s h
event-Polls js request_opens s r h = xhr_open-Polls s
event-Polls js (poll_succeeds t) s r h =
    answer-Polls awaits_request (λ u. get_again (on_data js t u)) s
      (λ u _. get_again-Polls (on_data js t (set_transport s (record u { channel = answered })))) r
      h
event-Polls js poll_fails s r h =
    answer-Polls awaits_request transport_on_close s
      (λ u _ _. transport_on_close-Polls (set_transport s (record u { channel = answered }))) r h
event-Polls js (script_calls t) s r h =
    answer-Polls awaits_script (λ u. get_if_open (on_data js t u)) s
      (λ u a _. script_calls-Polls js t s u a) r h
event-Polls js script_fails s r h =
    answer-Polls awaits_script transport_on_close s
      (λ u _ _. transport_on_close-Polls (set_transport s (record u { channel = answered }))) r h
event-Polls js (sends name v fn) s r h = plain-Polls js (sends name v fn) s tt h
event-Polls js (json_sends name v fn) s r h = plain-Polls js (json_sends name v fn) s tt h
event-Polls js (emits name v args fn) s r h = plain-Polls js (emits name v args fn) s tt h
event-Polls js (json_emits name v args fn) s r h = plain-Polls js (json_emits name v args fn) s tt h
event-Polls js (acknowledges name id args) s r h = plain-Polls js (acknowledges name id args) s tt h
event-Polls js (joins name) s r h = plain-Polls js (joins name) s tt h
event-Polls js (leaves name) s r h = plain-Polls js (leaves name) s tt h
event-Polls js disconnects s r h = plain-Polls js disconnects s tt h
event-Polls js socket_closes s r h = plain-Polls js socket_closes s tt h
event-Polls js socket_fails s r h = plain-Polls js socket_fails s tt h
event-Polls js (receives t) s r h = plain-Polls js (receives t) s tt h
event-Polls js post_succeeds s r h = plain-Polls js post_succeeds s tt h
event-Polls js post_fails s r h = plain-Polls js post_fails s tt h
event-Polls js (iframe_calls t) s r h = plain-Polls js (iframe_calls t) s tt h
event-Polls js heartbeat_expires s r h = plain-Polls js heartbeat_expires s tt h
event-Polls js close_expires s r h = plain-Polls js close_expires s tt h

-- No event of a run ends in an exception.
abbrev pub IsCalm : Json → List Event → Client → Type 0
IsCalm js [] s = Unit
IsCalm js (e ∷ es) s = ((handle js e s).raised ≡ false) × IsCalm js es (handle js e s)

-- An XHR polling transport that is open has a request under way after any run of events that raises no exception, if it
-- had one before or was not open: so the server can always reach an open client.
pub run-Polls :
    (js : Json) (es : List Event) (s : Client)
    → IsCalm js es s
    → Polls s.transport
    → Polls (run js es s).transport
unfolding run
run-Polls js [] s c h = h
run-Polls js (e ∷ es) s c h = run-Polls js es (handle js e s) c.1 (event-Polls js e s c.0 h)

answer_lem :
    (awaits : Transport → Bool) (f : Client → Client) (s : Client) (t : Transport)
    → s.transport ≡ some t
    → awaits t ≡ true
    → answer awaits f s ≡ f (set_transport s (record t { channel = answered }))
unfolding answer
answer_lem awaits f s t e a =
    ap (λ o. answer_from awaits f o s) e
    ∙ ap (λ b. if b then f (set_transport s (record t { channel = answered })) else s) a

followed :
    (t : Transport) (o : Option Transport)
    → FollowsOption (some t) o
    → (t' : Transport) × (o ≡ some t') × Follows t t'
followed t none g = elim g [ ]
followed t (some t') g = (t', refl, g)

-- An exception while the answer to a poll is handled ends the polling: no request is under way after it, whether the
-- transport is closed then or is as open as it was.
pub poll_stops :
    (js : Json) (text : Text) (s : Client) (t : Transport)
    → s.transport ≡ some t
    → t.kind ≡ xhr_polling
    → t.channel ≡ waiting
    → (on_data js text (set_transport s (record t { channel = answered }))).raised ≡ true
    → (t' : Transport) × ((handle js (poll_succeeds text) s).transport ≡ some t')
      × (t'.channel ≢ waiting)
      × ((t'.opened ≡ not_open) ⊎ (t'.opened ≡ t.opened))
unfolding handle following
poll_stops js text s t e k w r =
    let u = record t { channel = answered } in
    let v = on_data js text (set_transport s u) in
    let q =
      answer_lem awaits_request (λ c. get_again (on_data js text c)) s t e (ground arith)
      ∙ ap (λ b. if b then v else get v) r in
    let (t', p, g) = followed u v.transport (Keeps-on_data following js text (set_transport s u)) in
    (
      t',
      ap (λ c. c.transport) q ∙ p,
      λ a. absurd (cc (g.asked a)),
      elim (g.left k) [ inl c ↦ inl c | inr (o, _) ↦ inr o ],
    )
