-- ===== src/Client/Delivery.antt =====
-- The packets that Socket.packet was called with, and where they are: those that the transport was given, then
-- those that wait in the buffer.
pub mod Framed
pub mod Running
pub mod Texts
pub mod Filled
pub mod Received
use socket_io_java.Common.{
  Bool, true, false, not, ◌&&◌, ◌||◌, Option, none, some, ◌≡◌, refl, ap, sym, ◌∙◌, Text, arith,
  List, [], ◌∷◌, ◌++◌, append_assoc, append-nil, if◌then◌else◌, Bool-cases, inl, inr,
}
use socket_io_java.Parser.Packet.{Packet}
use socket_io_java.Client.State.{Client, Transport, Output, transmits, hands, throws, streams, put}
use socket_io_java.Client.Frame.{packets_of}
use socket_io_java.Client.Buffer.{
  packet, pass_on, set_buffer, send_each, transport_payload, transport_packet, after_send, flush,
  is_empty,
}

abbrev pub handed_by : Output → List Packet
handed_by (hands p) = p ∷ []
handed_by _ = []

abbrev pub gathered : (Output → List Packet) → List Output → List Packet
gathered f [] = []
gathered f (o ∷ os) = f o ++ gathered f os

-- The packets that the transport was given, and those that Socket.packet was called with.
abbrev pub delivered : List Output → List Packet
delivered os = gathered packets_of os

abbrev pub handed : List Output → List Packet
handed os = gathered handed_by os

abbrev pub pending : Client → List Packet
pending s = delivered s.log ++ s.buffer

-- The transport is there, and nothing waits in the buffer of a socket that sends at once.
pub record IsOrdered (s : Client) : Type 0 where
  pub attached : (t : Transport) × (s.transport ≡ some t)
  pub flushed : (s.connected && not s.do_buffer) ≡ true → s.buffer ≡ []

pub gathered-put :
    (f : Output → List Packet) (os : List Output) (o : Output)
    → gathered f (os ++ o ∷ []) ≡ gathered f os ++ f o
gathered-put f [] o = append-nil (f o)
gathered-put f (x ∷ os) o =
    ap (λ t. f x ++ t) (gathered-put f os o) ∙ sym (append_assoc (f x) (gathered f os) (f o))

-- An output without packets of a kind changes nothing of what is gathered.
pub gathered-other :
    (f : Output → List Packet) (os : List Output) (o : Output)
    → f o ≡ []
    → gathered f (os ++ o ∷ []) ≡ gathered f os
gathered-other f os o e = gathered-put f os o ∙ rw e (append-nil (gathered f os))

IsOrdered-put : (o : Output) (s : Client) → IsOrdered s → IsOrdered (put o s)
IsOrdered-put o s h = record { attached = h.attached; flushed = h.flushed }

pending-pass_on :
    (p : Packet) (s : Client) → IsOrdered s → pending (pass_on p s) ≡ pending s ++ p ∷ []
pending-pass_on p s h = ground (
  arith,
  gathered-put packets_of s.log (transmits (p ∷ [])),
  append_assoc (delivered s.log) s.buffer (p ∷ []),
  append-nil (delivered s.log),
  append-nil (delivered s.log ++ p ∷ []),
)

-- A packet handed to an ordered socket stands at the end of what was handed to it, whether it is sent
-- at once or waits.
pub pending-packet :
    (p : Packet) (s : Client) → IsOrdered s → pending (packet p s) ≡ pending s ++ p ∷ []
unfolding packet
pending-packet p s h =
    pending-pass_on p (put (hands p) s) (IsOrdered-put (hands p) s h)
    ∙ ap (λ l. (l ++ s.buffer) ++ p ∷ []) (gathered-other packets_of s.log (hands p) refl)

handed-after_send : (t : Transport) (s : Client) → handed (after_send t s).log ≡ handed s.log
handed-after_send t s = after (streams t.kind)
  where
    after : (b : Bool) → handed (if b then s else record s { do_buffer = true }).log ≡ handed s.log
    after true = refl
    after false = refl

-- The call is noted once.
handed-pass_on : (p : Packet) (s : Client) → handed (pass_on p s).log ≡ handed s.log
handed-pass_on p s = passed (s.connected && not s.do_buffer) s.transport
  where
    passed :
        (b : Bool) (o : Option Transport)
        → handed
            (if b then transport_packet p o s else record s { buffer = s.buffer ++ p ∷ [] }).log
          ≡ handed s.log
    passed true none = gathered-other handed_by s.log throws refl
    passed true (some t) =
        handed-after_send t (put (transmits (p ∷ [])) s)
        ∙ gathered-other handed_by s.log (transmits (p ∷ [])) refl
    passed false o = refl

pub handed-packet : (p : Packet) (s : Client) → handed (packet p s).log ≡ handed s.log ++ p ∷ []
unfolding packet
handed-packet p s = handed-pass_on p (put (hands p) s) ∙ gathered-put handed_by s.log (hands p)

pub packet-IsOrdered : (p : Packet) (s : Client) → IsOrdered s → IsOrdered (packet p s)
unfolding packet
packet-IsOrdered p s h = record { attached = ground arith; flushed = ground arith }

-- Both together: order is kept, and what was handed over stays in front, with the packets of the calls of
-- Socket.packet in between behind it.
pub record Grows (s s' : Client) : Type 0 where
  pub ordered : IsOrdered s'
  pub added :
      (ps : List Packet) × (pending s' ≡ pending s ++ ps) × (handed s'.log ≡ handed s.log ++ ps)

pub Grows-trans : {s t u : Client} → Grows s t → Grows t u → Grows s u
Grows-trans {s} {t} {u} g h =
    let (ps, p, a) = g.added in
    let (qs, q, b) = h.added in
    record {
      ordered = h.ordered;
      added = (
        ps ++ qs,
        q ∙ ap (λ l. l ++ qs) p ∙ append_assoc (pending s) ps qs,
        b ∙ ap (λ l. l ++ qs) a ∙ append_assoc (handed s.log) ps qs,
      );
    }

-- An operation that leaves the queue alone.
pub Grows-same :
    (s s' : Client)
    → IsOrdered s
    → s'.buffer ≡ s.buffer
    → delivered s'.log ≡ delivered s.log
    → handed s'.log ≡ handed s.log
    → ((t : Transport) × (s'.transport ≡ some t))
    → ((s'.connected && not s'.do_buffer) ≡ true → (s.connected && not s.do_buffer) ≡ true)
    → Grows s s'
Grows-same s s' h b d k a f = record {
  ordered = record { attached = a; flushed = λ e. b ∙ h.flushed (f e) };
  added = ([], rw (b, d) (sym (append-nil (pending s))), k ∙ sym (append-nil (handed s.log)));
}

pub Grows-packet : (p : Packet) (s : Client) → IsOrdered s → Grows s (packet p s)
Grows-packet p s h = record {
  ordered = packet-IsOrdered p s h;
  added = (p ∷ [], pending-packet p s h, handed-packet p s);
}

-- The loop of WS.payload gives the packets to the transport in order.
delivered-send_each :
    (ps : List Packet) (s : Client) → delivered (send_each ps s).log ≡ delivered s.log ++ ps
unfolding send_each
delivered-send_each [] s = sym (append-nil (delivered s.log))
delivered-send_each (p ∷ ps) s =
    delivered-send_each ps (put (transmits (p ∷ [])) s)
    ∙ ap (λ l. l ++ ps) (gathered-put packets_of s.log (transmits (p ∷ [])))
    ∙ append_assoc (delivered s.log) (p ∷ []) ps

pub send_each_fields :
    (ps : List Packet) (s : Client)
    → ((send_each ps s).transport ≡ s.transport)
      × ((send_each ps s).connected ≡ s.connected)
      × ((send_each ps s).do_buffer ≡ s.do_buffer)
unfolding send_each
send_each_fields [] s = (refl, refl, refl)
send_each_fields (p ∷ ps) s = send_each_fields ps (put (transmits (p ∷ [])) s)

-- Socket.setBuffer loses, doubles and reorders no packet.
pub pending-set_buffer :
    (v : Bool) (s : Client) (t : Transport)
    → s.transport ≡ some t
    → pending (set_buffer v s) ≡ pending s
unfolding set_buffer
pending-set_buffer v s t h = ground (
  arith,
  delivered-send_each s.buffer (record s { do_buffer = v }),
  gathered-put packets_of s.log (transmits s.buffer),
  append-nil (delivered s.log ++ s.buffer),
)

-- It may be called on a socket whose buffer is not flushed, and flushes it if the socket is connected.
pub set_buffer-IsOrdered :
    (v : Bool) (s : Client) (t : Transport) → s.transport ≡ some t → IsOrdered (set_buffer v s)
unfolding set_buffer
set_buffer-IsOrdered v s t h = record {
  attached = (t, ground (arith, send_each_fields s.buffer (record s { do_buffer = v })));
  flushed = ground (arith, send_each_fields s.buffer (record s { do_buffer = v }));
}

handed-send_each : (ps : List Packet) (s : Client) → handed (send_each ps s).log ≡ handed s.log
unfolding send_each
handed-send_each [] s = refl
handed-send_each (p ∷ ps) s =
    handed-send_each ps (put (transmits (p ∷ [])) s)
    ∙ gathered-other handed_by s.log (transmits (p ∷ [])) refl

handed-flush : (o : Option Transport) (s : Client) → handed (flush o s).log ≡ handed s.log
handed-flush none s = gathered-other handed_by s.log throws refl
handed-flush (some t) s = sent (streams t.kind)
  where
    sent :
        (b : Bool)
        → handed (if b then send_each s.buffer s else after_send t (put (transmits s.buffer) s)).log
          ≡ handed s.log
    sent true = handed-send_each s.buffer s
    sent false =
        handed-after_send t (put (transmits s.buffer) s)
        ∙ gathered-other handed_by s.log (transmits s.buffer) refl

-- Socket.setBuffer does not call Socket.packet.
pub handed-set_buffer : (v : Bool) (s : Client) → handed (set_buffer v s).log ≡ handed s.log
unfolding set_buffer
handed-set_buffer v s = flushed (not v && (s.connected && not (is_empty s.buffer)))
  where
    s' : Client
    s' = record s { do_buffer = v }

    flushed : (b : Bool) → handed (if b then flush s.transport s' else s').log ≡ handed s.log
    flushed true = handed-flush s.transport s'
    flushed false = refl

pub Grows-set_buffer : (v : Bool) (s : Client) → IsOrdered s → Grows s (set_buffer v s)
Grows-set_buffer v s h =
    let (t, e) = h.attached in
    record {
      ordered = set_buffer-IsOrdered v s t e;
      added = (
        [],
        pending-set_buffer v s t e ∙ sym (append-nil (pending s)),
        handed-set_buffer v s ∙ sym (append-nil (handed s.log)),
      );
    }

-- An operation on other parts of the state.
pub Grows-still :
    (s s' : Client)
    → IsOrdered s
    → s'.buffer ≡ s.buffer
    → delivered s'.log ≡ delivered s.log
    → handed s'.log ≡ handed s.log
    → s'.transport ≡ s.transport
    → s'.connected ≡ s.connected
    → s'.do_buffer ≡ s.do_buffer
    → Grows s s'
Grows-still s s' h b d k t c o =
    let (u, e) = h.attached in Grows-same s s' h b d k (u, t ∙ e) (rw (c, o) (λ x. x))

-- An output that carries no packet.
pub Grows-put :
    (o : Output) (s : Client)
    → packets_of o ≡ []
    → handed_by o ≡ []
    → IsOrdered s
    → Grows s (put o s)
Grows-put o s e k h =
    Grows-still s (put o s) h refl (gathered-other packets_of s.log o e)
      (gathered-other handed_by s.log o k) refl refl refl

pub Grows-refl : (s : Client) → IsOrdered s → Grows s s
Grows-refl s h = record {
  ordered = h;
  added = ([], sym (append-nil (pending s)), sym (append-nil (handed s.log)));
}
