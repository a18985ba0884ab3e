-- ===== src/Client/Delivery/Filled.antt =====
-- The client's steps send no empty message.
use socket_io_java.Common.{
  Bool, true, false, not, ◌&&◌, Option, none, some, List, [], ◌∷◌, ◌++◌, ◌≡◌, refl, All, All-append,
  arith, if◌then◌else◌,
}
use socket_io_java.Parser.Packet.{Packet}
use socket_io_java.Parser.Encode.{Json}
use socket_io_java.Client.State.{Client, Transport, Output, transmits, hands, throws, streams, put}
use socket_io_java.Client.Buffer.{
  packet, send_each, is_empty, flush, after_send, transport_packet, transport_payload, set_buffer,
  on_open, on_close,
}
use socket_io_java.Client.Close.{has_iframe, reconnect}
use socket_io_java.Client.Opening.{settle, arrive}
use socket_io_java.Client.Events.{Event, run}
use socket_io_java.Client.Frame.{Frame, unnamed, IsSilent}
use socket_io_java.Client.Frame.Attached.{Rel-mark_closed, Rel-release, Rel-closes_up}
use socket_io_java.Client.Frame.Running.{Keeps-run}
use socket_io_java.Client.Delivery.Texts.{IsFilled}

abbrev pub FilledFrom : Client → Client → Type 0
FilledFrom s t = All IsFilled s.log → All IsFilled t.log

FilledFrom-put : (o : Output) (s : Client) → IsFilled o → FilledFrom s (put o s)
FilledFrom-put o s f h = All-append IsFilled s.log (o ∷ []) h (f, tt)

IsSilent-IsFilled : (o : Output) → IsSilent o → IsFilled o
IsSilent-IsFilled (transmits ps) h = absurd h
IsSilent-IsFilled _ h = tt

FilledFrom-after_send : (t : Transport) (s : Client) → FilledFrom s (after_send t s)
FilledFrom-after_send t s h = after (streams t.kind)
  where
    after : (b : Bool) → All IsFilled (if b then s else record s { do_buffer = true }).log
    after true = h
    after false = h

FilledFrom-packet : (p : Packet) (s : Client) → FilledFrom s (packet p s)
unfolding packet
FilledFrom-packet p s' h' = sent (s.connected && not s.do_buffer) s.transport
  where
    s : Client
    s = put (hands p) s'

    h : All IsFilled s.log
    h = FilledFrom-put (hands p) s' tt h'

    sent :
        (b : Bool) (o : Option Transport)
        → All IsFilled
            (if b then transport_packet p o s else record s { buffer = s.buffer ++ p ∷ [] }).log
    sent true none = FilledFrom-put throws s tt h
    sent true (some t) =
        FilledFrom-after_send t (put (transmits (p ∷ [])) s)
          (FilledFrom-put (transmits (p ∷ [])) s tt h)
    sent false o = h

FilledFrom-send_each : (ps : List Packet) (s : Client) → FilledFrom s (send_each ps s)
unfolding send_each
FilledFrom-send_each [] s h = h
FilledFrom-send_each (p ∷ ps) s h =
    FilledFrom-send_each ps (put (transmits (p ∷ [])) s)
      (FilledFrom-put (transmits (p ∷ [])) s tt h)

FilledFrom-payload :
    (ps : List Packet) (t : Transport) (s : Client)
    → IsFilled (transmits ps)
    → FilledFrom s (transport_payload ps (some t) s)
FilledFrom-payload ps t s f h = sent (streams t.kind)
  where
    sent :
        (b : Bool)
        → All IsFilled (if b then send_each ps s else after_send t (put (transmits ps) s)).log
    sent true = FilledFrom-send_each ps s h
    sent false =
        FilledFrom-after_send t (put (transmits ps) s) (FilledFrom-put (transmits ps) s f h)

FilledFrom-flush :
    (o : Option Transport) (s : Client) → is_empty s.buffer ≡ false → FilledFrom s (flush o s)
FilledFrom-flush none s e h = FilledFrom-put throws s tt h
FilledFrom-flush (some t) s e h = FilledFrom-payload s.buffer t s (filled s.buffer e) h
  where
    filled : (ps : List Packet) → is_empty ps ≡ false → IsFilled (transmits ps)
    filled [] e = absurd (cc e)
    filled (p ∷ ps) e = tt

pub FilledFrom-set_buffer : (v : Bool) (s : Client) → FilledFrom s (set_buffer v s)
unfolding set_buffer
FilledFrom-set_buffer v s h =
    flushed (not v && (s.connected && not (is_empty s.buffer))) (λ e. ground (arith, e))
  where
    s' : Client
    s' = record s { do_buffer = v }

    flushed :
        (b : Bool)
        → (b ≡ true → is_empty s.buffer ≡ false)
        → All IsFilled (if b then flush s.transport s' else s').log
    flushed true e = FilledFrom-flush s.transport s' (e refl) h
    flushed false e = h

FilledFrom-arrive : (s : Client) → FilledFrom s (arrive s)
unfolding arrive
FilledFrom-arrive s h = flushed s.do_buffer
  where
    s' : Client
    s' = record s { connected = true; connecting = false }

    flushed : (b : Bool) → All IsFilled (if b then s' else set_buffer false s').log
    flushed true = h
    flushed false = FilledFrom-set_buffer false s' h

filling : Frame
unfolding settle reconnect on_close
filling = record {
  Rel = FilledFrom;
  naming = unnamed FilledFrom;
  same = λ s h. h;
  chain = λ s t u g k h. k (g h);
  puts = λ o s e. FilledFrom-put o s (IsSilent-IsFilled o e);
  raises = λ s. FilledFrom-put throws s tt;
  sends = FilledFrom-packet;
  flushes = FilledFrom-set_buffer;
  names = λ key m f s h. h;
  closes_up = Rel-closes_up FilledFrom (λ s h. h) (λ s t h. h) (λ s t u g k h. k (g h)) (λ s h. h);
  drops_iframe = Rel-release FilledFrom (λ s h. h) (λ s t h. h) has_iframe;
  times = λ b s t e h. h;
  marks = Rel-mark_closed FilledFrom (λ s h. h) (λ s t h. h);
  reconnects = λ s h. h;
  shuts = λ s h. h;
  settles = λ c s h. h;
  arrives = λ s e. FilledFrom-arrive s;
  connects = λ s h. h;
  beats_on = λ b s h. h;
  calms = λ s h. h;
  posts = λ s h. h;
}

-- No event sends a message without a packet.
pub FilledFrom-run : (js : Json) (es : List Event) (s : Client) → FilledFrom s (run js es s)
unfolding filling on_open
FilledFrom-run = Keeps-run filling (λ s t h. h) (λ s h. h)
