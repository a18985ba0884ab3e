-- ===== src/Client/Frame/Buffering.antt =====
-- What sending and buffering leave alone.
use socket_io_java.Common.{
  Bool, true, false, not, ◌&&◌, Option, none, some, List, [], ◌∷◌, ◌++◌, ◌≡◌, refl, ap,
  if◌then◌else◌,
}
use socket_io_java.Parser.Packet.{Packet}
use socket_io_java.Client.State.{Client, Transport, transmits, hands, streams, put}
use socket_io_java.Client.Buffer.{
  packet, send_each, set_buffer, after_send, transport_packet, transport_payload, flush, is_empty,
  clear_buffer,
}
use socket_io_java.Client.Opening.{arrive}

-- A state with the buffer and the log of another one.
abbrev pub buffered : Client → Client → Client
buffered s t = record s {
  buffer = t.buffer;
  do_buffer = t.do_buffer;
  log = t.log;
  raised = t.raised;
}

after_send-buffered : (t : Transport) (s : Client) → after_send t s ≡ buffered s (after_send t s)
after_send-buffered t s = after (streams t.kind)
  where
    after : (b : Bool) → let u = if b then s else record s { do_buffer = true } in u ≡ buffered s u
    after true = refl
    after false = refl

pub packet-buffered : (p : Packet) (s : Client) → packet p s ≡ buffered s (packet p s)
unfolding packet
packet-buffered p s₀ = sent (s₀.connected && not s₀.do_buffer) s₀.transport
  where
    s : Client
    s = put (hands p) s₀

    sent :
        (b : Bool) (o : Option Transport)
        → let u = if b then transport_packet p o s else record s { buffer = s.buffer ++ p ∷ [] } in
          u ≡ buffered s u
    sent true none = refl
    sent true (some t) = after_send-buffered t (put (transmits (p ∷ [])) s)
    sent false o = refl

send_each-buffered : (ps : List Packet) (s : Client) → send_each ps s ≡ buffered s (send_each ps s)
unfolding send_each
send_each-buffered [] s = refl
send_each-buffered (p ∷ ps) s = send_each-buffered ps (put (transmits (p ∷ [])) s)

transport_payload-buffered :
    (ps : List Packet) (t : Transport) (s : Client)
    → transport_payload ps (some t) s ≡ buffered s (transport_payload ps (some t) s)
transport_payload-buffered ps t s = sent (streams t.kind)
  where
    sent :
        (b : Bool)
        → let u = if b then send_each ps s else after_send t (put (transmits ps) s) in
          u ≡ buffered s u
    sent true = send_each-buffered ps s
    sent false = after_send-buffered t (put (transmits ps) s)

flush-buffered : (o : Option Transport) (s : Client) → flush o s ≡ buffered s (flush o s)
flush-buffered none s = refl
flush-buffered (some t) s = ap clear_buffer (transport_payload-buffered s.buffer t s)

pub set_buffer-buffered : (v : Bool) (s : Client) → set_buffer v s ≡ buffered s (set_buffer v s)
unfolding set_buffer
set_buffer-buffered v s = flushed (not v && (s.connected && not (is_empty s.buffer)))
  where
    s' : Client
    s' = record s { do_buffer = v }

    flushed : (b : Bool) → let u = if b then flush s.transport s' else s' in u ≡ buffered s u
    flushed true = flush-buffered s.transport s'
    flushed false = refl

pub arrive-buffered :
    (s : Client)
    → arrive s ≡ buffered (record s { connected = true; connecting = false }) (arrive s)
unfolding arrive
arrive-buffered s = flushed s.do_buffer
  where
    s' : Client
    s' = record s { connected = true; connecting = false }

    flushed : (b : Bool) → let u = if b then s' else set_buffer false s' in u ≡ buffered s' u
    flushed true = refl
    flushed false = set_buffer-buffered false s'
