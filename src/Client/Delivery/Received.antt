-- ===== src/Client/Delivery/Received.antt =====
-- From the calls of the interface to what a peer reads: sending, buffering, encoding and decoding together.
use socket_io_java.Common.{
  true, false, some, List, [], map, map-append, append-nil, ◌++◌, ◌≡◌, sym, ap, ◌∙◌, All, All-split,
  arith,
}
use socket_io_java.Parser.Packet.{Packet}
use socket_io_java.Parser.Encode.{Json}
use socket_io_java.Client.State.{Client, Transport}
use socket_io_java.Client.Buffer.{set_buffer}
use socket_io_java.Client.Events.{Event, post_succeeds, handle, run}
use socket_io_java.Client.Delivery.{
  IsOrdered, pending, delivered, handed, handed-set_buffer, pending-set_buffer,
}
use socket_io_java.Client.Delivery.Running.{run-Grows}
use socket_io_java.Client.Delivery.Texts.{texts_read, texts_read_lem, IsFilled, CanSend, as_read}
use socket_io_java.Client.Delivery.Filled.{FilledFrom-run, FilledFrom-set_buffer}

texts_read-pending :
    (js : Json) (s : Client)
    → All IsFilled s.log
    → All (CanSend js) (pending s)
    → texts_read js s.log ++ map as_read s.buffer ≡ map as_read (pending s)
texts_read-pending js s f h =
    ap (λ ps. ps ++ map as_read s.buffer)
      (texts_read_lem js s.log f (All-split (CanSend js) (delivered s.log) s.buffer h).0)
    ∙ sym (map-append as_read (delivered s.log) s.buffer)

-- The texts that are sent, read as a peer reads them that decodes as the client does, followed by the packets in
-- the buffer: over any run of events, what is added at the end is each packet that Socket.packet is called with
-- meanwhile, once, in the order of the calls and as it was handed over (but a connect packet without a query
-- string, whose query string is read as ''). The connection is ordered, no message in the log is empty, and the
-- packets of the messages and the buffer are ones that the protocol can carry. Whether a text arrives is not
-- said; the answers to heartbeats do not count.
pub run-texts_read :
    (js : Json) (es : List Event) (s : Client)
    → IsOrdered s
    → All IsFilled s.log
    → All (CanSend js) (pending (run js es s))
    → (ps : List Packet) × (handed (run js es s).log ≡ handed s.log ++ ps)
      × (texts_read js (run js es s).log ++ map as_read (run js es s).buffer
          ≡ (texts_read js s.log ++ map as_read s.buffer) ++ map as_read ps)
run-texts_read js es s o f h =
    let (ps, k, e) = (run-Grows js es s o).1 in
    let c = All-split (CanSend js) (pending s) ps (rw (sym e) h) in
    (
      ps,
      k,
      texts_read-pending js (run js es s) (FilledFrom-run js es s f) h
          ∙ ap (map as_read) e
          ∙ map-append as_read (pending s) ps
          ∙ ap (λ qs. qs ++ map as_read ps) (sym (texts_read-pending js s f c.0)),
    )

set_buffer-empties :
    (s : Client) (t : Transport)
    → s.transport ≡ some t
    → s.connected ≡ true
    → (set_buffer false s).buffer ≡ []
unfolding set_buffer
set_buffer-empties s t a c = ground (arith, a, c)

-- What was handed over by then is what was sent or waits.
run-pending :
    (js : Json) (es : List Event) (s : Client)
    → IsOrdered s
    → pending s ≡ handed s.log
    → pending (run js es s) ≡ handed (run js es s).log
run-pending js es s o e =
    let (ps, k, p) = (run-Grows js es s o).1 in p ∙ ap (λ l. l ++ ps) e ∙ sym k

-- Whatever happened to an ordered connection, if it is connected and its post succeeds, the texts that were sent by then,
-- read as a peer reads them that decodes as the client does, are all the packets that Socket.packet was ever called
-- with, each once, in order and as it is read, and none waits. At the start this holds of what was sent and what
-- waits, no message in the log is empty, and the packets are ones that the protocol can carry. Whether a text
-- arrives is not said.
pub run_flushed :
    (js : Json) (es : List Event) (s : Client)
    → IsOrdered s
    → All IsFilled s.log
    → pending s ≡ handed s.log
    → (run js es s).connected ≡ true
    → All (CanSend js) (handed (run js es s).log)
    → let t = handle js post_succeeds (run js es s) in
      (t.buffer ≡ []) × (texts_read js t.log ≡ map as_read (handed t.log))
unfolding handle
run_flushed js es s o f start c h =
    let u = run js es s in
    let v = set_buffer false u in
    let (t, a) = (run-Grows js es s o).0.attached in
    let all_handed = pending-set_buffer false u t a ∙ run-pending js es s o start in
    let empty = set_buffer-empties u t a c in
    (
      empty,
      sym (append-nil (texts_read js v.log))
          ∙ ap (λ b. texts_read js v.log ++ map as_read b) (sym empty)
          ∙ texts_read-pending js v (FilledFrom-set_buffer false u (FilledFrom-run js es s f))
              (rw all_handed h)
          ∙ ap (map as_read) (all_handed ∙ sym (handed-set_buffer false u)),
    )
