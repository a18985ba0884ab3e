-- ===== src/Client/Frame/Receiving.antt =====
-- Packets that come in, and what they make the socket do, under a frame.
use socket_io_java.Common.{
  not, ◌&&◌, ◌||◌, Option, none, some, Text, [], codes, Option-cases, inl, inr, lookup, ◌==◌,
  text_eq, nat_eq,
}
use socket_io_java.Value.{Items}
use socket_io_java.Parser.Packet.{Packet, Kind, Ack, no_ack, receipt, with_data}
use socket_io_java.Parser.Encode.{or_empty}
use socket_io_java.Client.State.{Namespace, publishes, publishes_packet, notifies, answers}
use socket_io_java.Client.Close.{reconnect}
use socket_io_java.Client.Namespaces.{key_of, namespace_packet}
use socket_io_java.Client.Packets.{
  say_goodbye, disconnect, disconnect_packet, namespace_disconnect, on_error, publish_error,
  advises_reconnect, send_receipt, receipt_packet, acknowledge, applicable, namespace_error,
  namespace_on_packet, on_packet, call_ack, ack_packet, or_booted,
}
use socket_io_java.Client.Frame.{Frame, Keeps, Rel-trans, Rel-if, Rel-at}
use socket_io_java.Client.Frame.Sending.{Keeps-namespace_packet, Keeps-of}
use socket_io_java.Client.Frame.Closing.{Keeps-on_disconnect}

module _ (F : Frame) where
  open F use {same, puts, raises, names, reconnects, naming}
  open naming use {Fits, delete_fits}

  Keeps-say_goodbye : Keeps F say_goodbye
  unfolding say_goodbye
  Keeps-say_goodbye s = Rel-trans F (Keeps-of F (some []) s) (
      Rel-at F (some []) (λ n. namespace_packet [] n disconnect_packet)
        (λ n. Keeps-namespace_packet F [] n disconnect_packet) _)

  pub Keeps-disconnect : Keeps F disconnect
  unfolding disconnect
  Keeps-disconnect s =
      let g =
        Rel-if F s.opened {s = s} {t = say_goodbye s} {u = s} (λ _. Keeps-say_goodbye s)
          (λ _. same s) in
      Rel-if F (s.connected || s.connecting)
        (λ _. Rel-trans F g (Keeps-on_disconnect F (some (codes "booted")) _)) (λ _. same s)

  pub Keeps-namespace_disconnect :
      (key : Text) (n : Namespace) → Fits key n → Keeps F (namespace_disconnect key n)
  unfolding namespace_disconnect
  Keeps-namespace_disconnect key n h s =
      Rel-if F (n.name == []) (λ _. Keeps-disconnect s)
        (λ _.
          Rel-trans F (Keeps-namespace_packet F key n disconnect_packet h s)
            (puts (notifies key _ [] none) _ tt))

  Keeps-publish_error : (p : Packet) → Keeps F (publish_error p)
  Keeps-publish_error p s =
      Rel-if F (or_empty p.reason == []) (λ _. puts (publishes_packet p) s tt)
        (λ _. puts (publishes _ _) s tt)

  pub Keeps-on_error : (p : Packet) → Keeps F (on_error p)
  unfolding on_error
  Keeps-on_error p s =
      let d = Keeps-disconnect s in
      let s' = disconnect s in
      let r =
        Rel-if F s'.options.reconnect {s = s'} {t = reconnect s'} {u = s'} (λ _. reconnects s')
          (λ _. same s') in
      Rel-if F (advises_reconnect p && (s.connected || s.connecting))
        (λ _.
          Rel-if F s'.raised (λ _. d)
            (λ _. Rel-trans F d (Rel-trans F r (Keeps-publish_error p _))))
        (λ _. Keeps-publish_error p s)

  Keeps-send_receipt :
      (key : Text) (n : Namespace) (p : Packet) (a : Ack)
      → Fits key n
      → Keeps F (send_receipt key n p a)
  Keeps-send_receipt key n p receipt h = Keeps-namespace_packet F key n (receipt_packet p) h
  Keeps-send_receipt key n p no_ack h = same
  Keeps-send_receipt key n p with_data h = same

  Keeps-acknowledge :
      (key : Text) (n : Namespace) (p : Packet) → Fits key n → Keeps F (acknowledge key n p)
  unfolding acknowledge
  Keeps-acknowledge key n p h s = elim (Option-cases (lookup (key_of p.ack_id) n.acks)) [
    | inl e ↦ rw (e, acknowledge) (same s)
    | inr (f, e) ↦
        rw (e, acknowledge)
          (Rel-if F (applicable p.args)
            (λ _.
              Rel-trans F (puts (answers f p.args) s tt) (names key _ (delete_fits _ key n h) _))
            (λ _. raises s))
  ]

  Keeps-namespace_error : (key : Text) (p : Packet) → Keeps F (namespace_error key p)
  unfolding namespace_error
  Keeps-namespace_error key p s =
      Rel-if F (not (or_empty p.advice == [])) (λ _. Keeps-on_error p s)
        (λ _. puts (notifies key _ _ none) s tt)

  Keeps-namespace_on_packet :
      (key : Text) (n : Namespace) (p : Packet) (k : Option Kind)
      → Fits key n
      → Keeps F (namespace_on_packet key n p k)
  unfolding namespace_on_packet
  Keeps-namespace_on_packet key n p (some Kind.connect) h s = puts (notifies _ _ _ _) s tt
  Keeps-namespace_on_packet key n p (some Kind.disconnect) h s =
      Rel-if F (n.name == []) (λ _. Keeps-on_disconnect F (some (or_booted p.reason)) s)
        (λ _. puts (notifies _ _ _ _) s tt)
  Keeps-namespace_on_packet key n p (some Kind.message) h s =
      Rel-trans F (Keeps-send_receipt key n p p.ack h s) (puts (notifies _ _ _ _) _ tt)
  Keeps-namespace_on_packet key n p (some Kind.json) h s =
      Rel-trans F (Keeps-send_receipt key n p p.ack h s) (puts (notifies _ _ _ _) _ tt)
  Keeps-namespace_on_packet key n p (some Kind.event) h s = puts (notifies _ _ _ _) s tt
  Keeps-namespace_on_packet key n p (some Kind.ack) h s = Keeps-acknowledge key n p h s
  Keeps-namespace_on_packet key n p (some Kind.error) h s = Keeps-namespace_error key p s
  Keeps-namespace_on_packet key n p (some Kind.heartbeat) h s = same s
  Keeps-namespace_on_packet key n p (some Kind.noop) h s = same s
  Keeps-namespace_on_packet key n p none h s = same s

  pub Keeps-on_packet : (p : Packet) → Keeps F (on_packet p)
  unfolding on_packet
  Keeps-on_packet p s = Rel-trans F (Keeps-of F p.endpoint s) (
      Rel-at F p.endpoint (λ n. namespace_on_packet (key_of p.endpoint) n p p.type)
        (λ n. Keeps-namespace_on_packet (key_of p.endpoint) n p p.type) _)

  pub Keeps-call_ack :
      (key : Text) (n : Namespace) (id : Option Text) (args : Items)
      → Fits key n
      → Keeps F (call_ack key n id args)
  unfolding call_ack
  Keeps-call_ack key n id args h = Keeps-namespace_packet F key n (ack_packet id args) h
