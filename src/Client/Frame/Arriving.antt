-- ===== src/Client/Frame/Arriving.antt =====
-- What a transport receives, under a frame.
use socket_io_java.Common.{
  true, false, ◌&&◌, ◌||◌, Option, none, some, ◌≡◌, refl, Text, List, [], ◌∷◌, codes, ◌==◌, text_eq,
  nat_eq,
}
use socket_io_java.Parser.Packet.{Packet, Kind}
use socket_io_java.Parser.Encode.{Json, or_empty}
use socket_io_java.Parser.Payload.{decode_payload}
use socket_io_java.Client.State.{Client, Transport, Namespace, streams, beats, put}
use socket_io_java.Client.Close.{set_transport}
use socket_io_java.Client.Events.{
  is_kind, at_root, beat, open_socket, close_on_advice, transport_on_packet, on_packets,
  set_close_timeout, renew_close_timeout, on_data, at, close_of,
}
use socket_io_java.Client.Frame.{Frame, Keeps, Rel-trans, Rel-if, Rel-at}
use socket_io_java.Client.Frame.Sending.{Keeps-of}
use socket_io_java.Client.Frame.Closing.{Keeps-clear_timeouts, Keeps-transport_on_close}
use socket_io_java.Client.Frame.Connecting.{Keeps-on_connect}
use socket_io_java.Client.Frame.Receiving.{Keeps-on_packet}

module _ (F : Frame) where
  open F use {Rel, same, puts, raises, times, marks, beats_on, calms, posts, naming}
  open naming use {Fits}

  Keeps-beat : (o : Option Transport) → Keeps F (beat o)
  Keeps-beat none s = raises s
  Keeps-beat (some t) s =
      Rel-trans F (puts beats s tt)
        (Rel-if F (streams t.kind) (λ _. same _) (λ _. posts (put beats s)))

  Keeps-open_socket : (p : Packet) → Keeps F (open_socket p)
  Keeps-open_socket p s =
      Rel-if F (is_kind Kind.connect p && at_root p.endpoint) (λ _. Keeps-on_connect F s)
        (λ _. same s)

  Keeps-close_on_advice : (p : Packet) → Keeps F (close_on_advice p)
  Keeps-close_on_advice p s =
      Rel-if F (is_kind Kind.error p && (or_empty p.advice == codes "reconnect")) (λ _. marks s)
        (λ _. same s)

  Keeps-transport_on_packet : (p : Packet) → Keeps F (transport_on_packet p)
  unfolding transport_on_packet
  Keeps-transport_on_packet p s =
      let timed = record s { heartbeat_timer = true } in
      Rel-trans F (beats_on true s) (
        Rel-if F (is_kind Kind.heartbeat p) (λ _. Keeps-beat s.transport timed)
          (λ _.
            Rel-trans F (Keeps-open_socket p timed)
              (Rel-trans F (Keeps-close_on_advice p _) (Keeps-on_packet F p _))))

  Keeps-on_packets : (ps : List Packet) → Keeps F (on_packets ps)
  unfolding on_packets
  Keeps-on_packets [] s = same s
  Keeps-on_packets (p ∷ ps) s =
      let g = Keeps-transport_on_packet p s in
      Rel-if F (transport_on_packet p s).raised (λ _. g)
        (λ _. Rel-trans F g (Keeps-on_packets ps _))

  pub Keeps-set_close_timeout : Keeps F set_close_timeout
  Keeps-set_close_timeout s = timed s.transport refl
    where
      timed :
          (o : Option Transport)
          → s.transport ≡ o
          → Rel s (elim o as (λ _. Client) [
            | none ↦ s
            | some t ↦ set_transport s (record t { close_timer = true })
          ])
      timed none e = same s
      timed (some t) e = times true s t e

  Keeps-renew_close_timeout : Keeps F renew_close_timeout
  Keeps-renew_close_timeout s =
      let g = Keeps-clear_timeouts F s in
      Rel-if F (s.connected || (s.connecting || s.reconnecting))
        (λ _. Rel-trans F g (Keeps-set_close_timeout _)) (λ _. g)

  pub Keeps-on_data : (js : Json) (t : Text) → Keeps F (on_data js t)
  unfolding on_data
  Keeps-on_data js t s =
      let calm = record s { raised = false } in
      let r = Rel-trans F (calms s) (Keeps-renew_close_timeout calm) in
      Rel-if F (t == []) (λ _. r) (λ _. Rel-trans F r (Keeps-on_packets (decode_payload js t) _))

  pub Keeps-at :
      (name : Text) (f : Text → Namespace → Client → Client)
      → ((n : Namespace) → Fits name n → Keeps F (f name n))
      → Keeps F (at name f)
  Keeps-at name f k s = Rel-trans F (Keeps-of F (some name) s) (Rel-at F (some name) (f name) k _)

  pub Keeps-close_of : (o : Option Transport) → Keeps F (close_of o)
  Keeps-close_of none = raises
  Keeps-close_of (some t) = Keeps-transport_on_close F
