-- ===== src/Client/Acknowledgement.antt =====
-- Functions that wait for an acknowledgement: the id that `send` and `emit` give, and the packet that
-- brings it back.
use socket_io_java.Common.{
  ℕ, suc, true, false, none, some, ◌≡◌, refl, ap, ◌∙◌, Text, [], ◌∷◌, ◌++◌, if◌then◌else◌, arith,
  lookup, delete, lookup-insert, lookup-delete, beq_refl, text_eq, nat_eq, ◌==◌, decimal,
}
use socket_io_java.Value.{Value, Items}
use socket_io_java.Parser.Packet.{Packet, with_data}
use socket_io_java.Client.State.{Client, Namespace, answers, put}
use socket_io_java.Client.Buffer.{packet}
use socket_io_java.Client.Namespaces.{
  namespace_packet, namespace_at, key_of, set_namespace, ticket, with_callback, with_id,
  event_packet, emit_event,
}
use socket_io_java.Client.Packets.{acknowledge, applicable}
use socket_io_java.Client.Delivery.{IsOrdered, pending, pending-packet}

pub lookup-set_namespace :
    (key : Text) (n : Namespace) (s : Client) → namespace_at (some key) (set_namespace key n s) ≡ n
unfolding namespace_at
lookup-set_namespace key n s = ground (arith, lookup-insert key key n s.namespaces, beq_refl key)

-- An `emit` with a function on an ordered connection hands over one packet, at the end, with the next id of the namespace,
-- the mark that asks for data and the namespace's name as endpoint; and the function waits
-- under that id, while every other id keeps the function that it had; the next id is counted up.
emit_event-callback :
    (key : Text) (n : Namespace) (name : Value) (args : Items) (f : ℕ) (s : Client) (id : Text)
    → IsOrdered s
    → let s' = emit_event key n name args (some f) s in
      (pending s'
        ≡ pending s
          ++ record (event_packet name args) {
            id = some (decimal (suc n.ack_packets));
            ack = with_data;
            endpoint = some n.name;
          }
            ∷ [])
      × (lookup id (namespace_at (some key) s').acks
          ≡ (if decimal (suc n.ack_packets) == id then some f else lookup id n.acks))
      × ((namespace_at (some key) s').ack_packets ≡ suc n.ack_packets)
unfolding emit_event namespace_packet
emit_event-callback key n name args f s id h =
    let p = record (with_id (event_packet name args) n f with_data) { endpoint = some n.name } in
    let m = record (with_callback n f) { json = false } in
    (
      pending-packet p s h,
      ap (λ k. lookup id k.acks) (lookup-set_namespace key m (packet p s))
          ∙ lookup-insert (ticket n f) id f n.acks,
      ap (λ k. k.ack_packets) (lookup-set_namespace key m (packet p s)),
    )

acknowledge_called :
    (key : Text) (n : Namespace) (p : Packet) (f : ℕ) (s : Client)
    → lookup (key_of p.ack_id) n.acks ≡ some f
    → applicable p.args ≡ true
    → acknowledge key n p s
      ≡ set_namespace key
          (record n { acks = delete (key_of p.ack_id) n.acks })
          (put (answers f p.args) s)
unfolding acknowledge
acknowledge_called key n p f s h a = rw (h, acknowledge, a)

acknowledge_unknown :
    (key : Text) (n : Namespace) (p : Packet) (s : Client)
    → lookup (key_of p.ack_id) n.acks ≡ none
    → acknowledge key n p s ≡ s
unfolding acknowledge
acknowledge_unknown key n p s h = rw (h, acknowledge)

-- An acknowledgement for an id under which a function waits calls that function once, with the arguments of the
-- packet; the same packet again does nothing, and the functions under other ids still wait.
pub acknowledge_once :
    (key : Text) (n : Namespace) (p : Packet) (f : ℕ) (s : Client) (id : Text)
    → lookup (key_of p.ack_id) n.acks ≡ some f
    → applicable p.args ≡ true
    → let s' = acknowledge key n p s in
      (s'.log ≡ s.log ++ answers f p.args ∷ [])
      × (acknowledge key (namespace_at (some key) s') p s' ≡ s')
      × (lookup id (namespace_at (some key) s').acks
          ≡ (if key_of p.ack_id == id then none else lookup id n.acks))
acknowledge_once key n p f s id h a = rw (acknowledge_called key n p f s h a) (forgotten)
  where
    m : Namespace
    m = record n { acks = delete (key_of p.ack_id) n.acks }

    t : Client
    t = set_namespace key m (put (answers f p.args) s)

    gone : lookup (key_of p.ack_id) m.acks ≡ none
    gone =
        lookup-delete (key_of p.ack_id) (key_of p.ack_id) n.acks ∙ rw (beq_refl (key_of p.ack_id))

    forgotten :
        (t.log ≡ s.log ++ answers f p.args ∷ [])
        × (acknowledge key (namespace_at (some key) t) p t ≡ t)
        × (lookup id (namespace_at (some key) t).acks
            ≡ (if key_of p.ack_id == id then none else lookup id n.acks))
    forgotten =
        rw (lookup-set_namespace key m (put (answers f p.args) s))
          (refl, acknowledge_unknown key m p t gone, lookup-delete (key_of p.ack_id) id n.acks)
