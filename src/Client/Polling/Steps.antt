-- ===== src/Client/Polling/Steps.antt =====
-- What asks again, and what does not stop an open transport from asking.
use socket_io_java.Common.{
  Bool, true, false, Option, none, some, ◌≡◌, refl, arith, if◌then◌else◌, Text,
}
use socket_io_java.Parser.Encode.{Json}
use socket_io_java.Client.State.{Client, Transport, jsonp_polling, answered, streams}
use socket_io_java.Client.Buffer.{set_buffer, on_open}
use socket_io_java.Client.Close.{
  stop, on_disconnect, transport_disconnect_with, set_transport, transport_on_close,
}
use socket_io_java.Client.Events.{
  asks, get_from, get, get_again, get_if_open, opened_transport, awaits_script, answer_from, answer,
  over_socket, on_data, transport_on_open, xhr_open,
}
use socket_io_java.Client.Frame.Arriving.{Keeps-set_close_timeout, Keeps-on_data}
use socket_io_java.Client.Frame.Closing.{Keeps-on_disconnect, Keeps-transport_disconnect_with}
use socket_io_java.Client.Polling.{FollowsOption, FollowsOption-Polls, IsClosed-Polls, Polls}
use socket_io_java.Client.Polling.Framed.{following, closes_up-IsClosed, set_buffer-transport}

get-Polls : (s : Client) → Polls (get s).transport
get-Polls s = asked s.transport refl
  where
    asked_by :
        (t : Transport) (b : Bool)
        → s.transport ≡ some t
        → asks t ≡ b
        → Polls (get_from b t s).transport
    asked_by t true e a = λ k o. refl
    asked_by t false e a = rw e (λ k o. ground arith)

    asked :
        (o : Option Transport)
        → s.transport ≡ o
        → Polls (elim o as (λ _. Client) [ none ↦ s | some t ↦ get_from (asks t) t s ]).transport
    asked none e = rw e tt
    asked (some t) e = asked_by t (asks t) e refl

pub xhr_open-Polls : (s : Client) → Polls (xhr_open s).transport
unfolding xhr_open following
xhr_open-Polls s =
    let u = get (transport_on_open (set_buffer false s)) in
    FollowsOption-Polls u.transport _ (Keeps-set_close_timeout following u) (get-Polls _)

pub transport_on_close-Polls : (s : Client) → Polls (transport_on_close s).transport
unfolding transport_on_close following
transport_on_close-Polls s = IsClosed-Polls _ (
    closes_up-IsClosed (transport_disconnect_with stop (on_disconnect none))
      (Keeps-transport_disconnect_with following stop (on_disconnect none) following.same
        (Keeps-on_disconnect following none))
      s)

pub get_again-Polls : (s : Client) → (get_again s).raised ≡ false → Polls (get_again s).transport
get_again-Polls s = again s.raised refl
  where
    again :
        (b : Bool)
        → s.raised ≡ b
        → (if b then s else get s).raised ≡ false
        → Polls (if b then s else get s).transport
    again true e h = cc
    again false e h = get-Polls s

-- A transport of another class does not poll.
Follows-jsonp :
    (t : Transport) (o : Option Transport)
    → t.kind ≡ jsonp_polling
    → FollowsOption (some t) o
    → Polls o
Follows-jsonp t none e g = elim g [ ]
Follows-jsonp t (some u) e g = λ k o. cc (g.kind, e, k)

get_if_open-Polls : (s : Client) → Polls s.transport → Polls (get_if_open s).transport
get_if_open-Polls s h = again s.raised (opened_transport s.transport)
  where
    again : (b c : Bool) → Polls (if b then s else if c then get s else s).transport
    again true c = h
    again false true = get-Polls s
    again false false = h

pub answer-Polls :
    (awaits : Transport → Bool) (f : Client → Client) (s : Client)
    → ((t : Transport)
        → awaits t ≡ true
        → let u = set_transport s (record t { channel = answered }) in
          (f u).raised ≡ false → Polls (f u).transport)
    → (answer awaits f s).raised ≡ false
    → Polls s.transport
    → Polls (answer awaits f s).transport
unfolding answer
answer-Polls awaits f s k r h = answered_by s.transport refl r
  where
    awaited :
        (t : Transport) (b : Bool)
        → awaits t ≡ b
        → let u = set_transport s (record t { channel = answered }) in
          (if b then f u else s).raised ≡ false → Polls (if b then f u else s).transport
    awaited t true e q = k t e q
    awaited t false e q = h

    answered_by :
        (o : Option Transport)
        → s.transport ≡ o
        → (answer_from awaits f o s).raised ≡ false
        → Polls (answer_from awaits f o s).transport
    answered_by none e q = h
    answered_by (some t) e q = awaited t (awaits t) refl q

pub socket_opens-Polls :
    (s : Client)
    → Polls s.transport
    → Polls
        (if over_socket s.transport then set_buffer false (transport_on_open s) else s).transport
unfolding transport_on_open on_open
socket_opens-Polls s h = opened_over s.transport refl
  where
    x : Client
    x = set_buffer false (transport_on_open s)

    opened_by :
        (t : Transport) (b : Bool)
        → s.transport ≡ some t
        → streams t.kind ≡ b
        → Polls (if b then x else s).transport
    opened_by t true e k =
        rw (set_buffer-transport false (transport_on_open s)) (rw e (λ i o. ground arith))
    opened_by t false e k = h

    opened_over :
        (o : Option Transport) → s.transport ≡ o → Polls (if over_socket o then x else s).transport
    opened_over none e = h
    opened_over (some t) e = opened_by t (streams t.kind) e refl

pub script_calls-Polls :
    (js : Json) (text : Text) (s : Client) (t : Transport)
    → awaits_script t ≡ true
    → Polls
        (get_if_open
          (on_data js text (set_transport s (record t { channel = answered })))).transport
unfolding following
script_calls-Polls js text s t a =
    let t' = record t { channel = answered } in
    let u = set_transport s t' in
    get_if_open-Polls (on_data js text u) (
      Follows-jsonp t' (on_data js text u).transport (ground arith)
        (Keeps-on_data following js text u))
