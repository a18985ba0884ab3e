-- ===== src/Client/Answers.antt =====
-- A call over the wire and its answer: SocketNamespace.emit, both directions of io.parser, and the acknowledgement that
-- comes back.
use socket_io_java.Common.{
  ℕ, suc, false, some, ◌≡◌, refl, sym, ap, ◌∙◌, Text, [], ◌∷◌, ◌++◌, arith, lookup, insert,
  lookup-insert, beq_refl, text_eq, nat_eq, decimal, decimal-cons, decimal-IsDigit, IsDigit,
  is_digit, InClass, All,
}
use socket_io_java.Value.{Value, Items, arr}
use socket_io_java.Parser.Packet.{Packet}
use socket_io_java.Parser.Encode.{Json, encode_packet, or_empty}
use socket_io_java.Parser.Decode.{decode_packet, not_colon}
use socket_io_java.Parser.Wire.{
  Wire, unacknowledged, by_data, calls, acknowledges, to_packet, RoundTrips, event_value, IsAckArgs,
  IsId,
}
use socket_io_java.Parser.Wire.RoundTrip.{decode_packet-encode_packet}
use socket_io_java.Client.State.{Client, Namespace, answers}
use socket_io_java.Client.Buffer.{packet}
use socket_io_java.Client.Namespaces.{
  namespace_packet, namespace_at, of, set_namespace, ticket, with_callback, emit_event,
}
use socket_io_java.Client.Packets.{acknowledge, namespace_on_packet, on_packet}
use socket_io_java.Client.Acknowledgement.{acknowledge_once, lookup-set_namespace}

-- The packet of an emit with a function, and of the answer to a packet that was read.
abbrev pub call_wire : Namespace → Value → Items → ℕ → Wire
call_wire n name args f = record {
  ticket = by_data (ticket n f);
  address = n.name;
  body = calls name args;
}

abbrev pub answer_wire : Packet → Items → Wire
answer_wire p results = record {
  ticket = unacknowledged;
  address = or_empty p.endpoint;
  body = acknowledges (or_empty p.id) results;
}

digits-InClass : (t : Text) → All IsDigit t → InClass is_digit t
digits-InClass [] h = tt
digits-InClass (c ∷ t) h = (ground (arith, h.0), digits-InClass t h.1)

decimal-IsId : (n : ℕ) → IsId (decimal n)
decimal-IsId n =
    let (d, t, e) = decimal-cons n in
    (λ z. cc (z, e), digits-InClass (decimal n) (decimal-IsDigit n))

-- What an emit with a function does is to hand over the packet of the call, and to keep the function.
emit_event-call :
    (n : Namespace) (name : Value) (args : Items) (f : ℕ) (s : Client)
    → emit_event n.name n name args (some f) s
      ≡ set_namespace n.name
          (record (with_callback n f) { json = false })
          (packet (to_packet (call_wire n name args f)) s)
unfolding emit_event namespace_packet to_packet
emit_event-call n name args f s = refl

of_set :
    (key : Text) (n : Namespace) (s : Client)
    → of (some key) (set_namespace key n s) ≡ set_namespace key n s
unfolding of
of_set key n s = rw (there, of) refl
  where
    there : lookup key (insert key n s.namespaces) ≡ some n
    there = ground (arith, lookup-insert key key n s.namespaces, beq_refl key)

abbrev reply_wire : Namespace → ℕ → Items → Wire
reply_wire n f results = record {
  ticket = unacknowledged;
  address = n.name;
  body = acknowledges (ticket n f) results;
}

-- An acknowledgement of the next id calls the function that the emit kept.
answer_called :
    (n : Namespace) (f : ℕ) (results : Items) (s : Client)
    → let m = record (with_callback n f) { json = false } in
      let t = set_namespace n.name m s in
      (on_packet (to_packet (reply_wire n f results)) t).log
      ≡ s.log ++ answers f (some (arr results)) ∷ []
unfolding on_packet namespace_on_packet to_packet
answer_called n f results s =
    let m = record (with_callback n f) { json = false } in
    let t = set_namespace n.name m s in
    let p = to_packet (reply_wire n f results) in
    ap (λ u. (acknowledge n.name (namespace_at (some n.name) u) p u).log) (of_set n.name m s)
    ∙ ap (λ k. (acknowledge n.name k p t).log) (lookup-set_namespace n.name m s)
    ∙ (acknowledge_once n.name m p f t [] kept refl).0
  where
    kept : lookup (ticket n f) (insert (ticket n f) f n.acks) ≡ some f
    kept = ground (arith, lookup-insert (ticket n f) (ticket n f) f n.acks, beq_refl (ticket n f))

-- An emit with a function hands a packet to the socket that reaches the server as it is: decoded from its text, it is the same
-- packet. If the server answers the id and the endpoint that it reads with results, the function is called with these
-- results when the text of the answer is decoded and handled, and nothing else is published. The name of the
-- namespace holds no colon, JSON gives the call back, and the results are printed without a line terminator.
pub emit_answered :
    (js : Json) (n : Namespace) (name : Value) (args results : Items) (f : ℕ) (s : Client)
    → InClass not_colon n.name
    → RoundTrips js (event_value name args)
    → IsAckArgs js results
    → let call = to_packet (call_wire n name args f) in
      let read = decode_packet js (encode_packet js call) in
      let back = decode_packet js (encode_packet js (to_packet (answer_wire read results))) in
      let t = emit_event n.name n name args (some f) s in
      (t ≡ set_namespace n.name (record (with_callback n f) { json = false }) (packet read s))
      × ((on_packet back t).log ≡ (packet read s).log ++ answers f (some (arr results)) ∷ [])
unfolding to_packet
emit_answered js n name args results f s a c r =
    let call = to_packet (call_wire n name args f) in
    let reply = reply_wire n f results in
    let t = emit_event n.name n name args (some f) s in
    let m = record (with_callback n f) { json = false } in
    let sent = emit_event-call n name args f s in
    let there =
      decode_packet-encode_packet js (call_wire n name args f)
        (record { ticket = decimal-IsId (suc n.ack_packets); address = a; body = c }) in
    let again =
      decode_packet-encode_packet js reply
        (record { ticket = tt; address = a; body = (decimal-IsId (suc n.ack_packets), r) }) in
    (
      sent ∙ ap (λ q. set_namespace n.name m (packet q s)) (sym there),
      ap
            (λ q.
              (on_packet (decode_packet js (encode_packet js (to_packet (answer_wire q results))))
                t).log)
            there
          ∙ ap (λ q. (on_packet q t).log) again
          ∙ ap (λ u. (on_packet (to_packet reply) u).log) sent
          ∙ answer_called n f results (packet call s)
          ∙ ap (λ q. (packet q s).log ++ answers f (some (arr results)) ∷ []) (sym there),
    )
