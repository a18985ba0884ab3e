-- ===== src/Client/Delivery/Framed.antt =====
-- The client's smallest steps keep the queue.
use socket_io_java.Common.{
  [], Bool, true, false, ◌≡◌, refl, sym, ◌∙◌, arith, append-nil, if◌then◌else◌,
}
use socket_io_java.Client.State.{Output, transmits, hands, Client, Transport, throws, raise}
use socket_io_java.Client.Buffer.{on_close, set_buffer}
use socket_io_java.Client.Close.{set_transport, has_iframe, shut, reconnect}
use socket_io_java.Client.Opening.{settle, arrive}
use socket_io_java.Client.Frame.{Frame, unnamed, packets_of, IsSilent}
use socket_io_java.Client.Frame.Attached.{Rel-mark_closed, Rel-release, Rel-closes_up}
use socket_io_java.Client.Delivery.{
  Grows, IsOrdered, Grows-trans, Grows-still, Grows-same, Grows-refl, Grows-put, Grows-packet,
  Grows-set_buffer, pending, set_buffer-IsOrdered, pending-set_buffer, gathered-other, handed_by,
  handed, handed-set_buffer,
}

abbrev pub GrowsFrom : Client → Client → Type 0
GrowsFrom s t = IsOrdered s → Grows s t

pub GrowsFrom-trans : (s t u : Client) → GrowsFrom s t → GrowsFrom t u → GrowsFrom s u
GrowsFrom-trans s t u g k h = let a = g h in Grows-trans a (k a.ordered)

pub GrowsFrom-raise : (s : Client) → GrowsFrom s (raise s)
GrowsFrom-raise s h =
    Grows-still s _ h refl (gathered-other packets_of s.log throws refl)
      (gathered-other handed_by s.log throws refl) refl refl refl

-- A change of the transport's own fields.
pub GrowsFrom-set_transport : (s : Client) (t : Transport) → GrowsFrom s (set_transport s t)
GrowsFrom-set_transport s t h = Grows-same s _ h refl refl refl (t, refl) (λ e. e)

pub GrowsFrom-on_close : (s : Client) → GrowsFrom s (on_close s)
unfolding on_close
GrowsFrom-on_close s h = Grows-still s _ h refl refl refl refl refl refl

pub GrowsFrom-reconnect : (s : Client) → GrowsFrom s (reconnect s)
unfolding reconnect
GrowsFrom-reconnect s h = Grows-still s _ h refl refl refl refl refl refl

pub GrowsFrom-shut : (s : Client) → GrowsFrom s (shut s)
GrowsFrom-shut s h = Grows-same s (shut s) h refl refl refl h.attached (λ e. cc)

-- The socket need not be ordered between the change of its flags and the flush.
pub GrowsFrom-arrive : (s : Client) → s.connected ≡ false → GrowsFrom s (arrive s)
unfolding arrive
GrowsFrom-arrive s c h = flushed s.do_buffer refl
  where
    s' : Client
    s' = record s { connected = true; connecting = false }

    flushed : (b : Bool) → s.do_buffer ≡ b → Grows s (if b then s' else set_buffer false s')
    flushed true e = Grows-same s s' h refl refl refl h.attached (ground arith)
    flushed false e =
        let (t, a) = h.attached in
        record {
          ordered = set_buffer-IsOrdered false s' t a;
          added = (
            [],
            pending-set_buffer false s' t a ∙ sym (append-nil (pending s)),
            handed-set_buffer false s' ∙ sym (append-nil (handed s.log)),
          );
        }

pub GrowsFrom-post : (s : Client) → GrowsFrom s (record s { do_buffer = true })
GrowsFrom-post s h = Grows-same s _ h refl refl refl h.attached (ground arith)

pub IsSilent-packets : (o : Output) → IsSilent o → packets_of o ≡ []
IsSilent-packets (transmits ps) h = absurd h
IsSilent-packets _ h = refl

pub IsSilent-handed : (o : Output) → IsSilent o → handed_by o ≡ []
IsSilent-handed (hands p) h = absurd h
IsSilent-handed _ h = refl

-- The steps under which the queue only grows at its end.
unfoldable pub growing : Frame
unfolding settle
growing = record {
  Rel = GrowsFrom;
  naming = unnamed GrowsFrom;
  same = Grows-refl;
  chain = GrowsFrom-trans;
  puts = λ o s e h. Grows-put o s (IsSilent-packets o e) (IsSilent-handed o e) h;
  raises = GrowsFrom-raise;
  sends = Grows-packet;
  flushes = Grows-set_buffer;
  names = λ key n f s h. Grows-still s _ h refl refl refl refl refl refl;
  closes_up =
      Rel-closes_up GrowsFrom Grows-refl GrowsFrom-set_transport GrowsFrom-trans GrowsFrom-on_close;
  drops_iframe = Rel-release GrowsFrom Grows-refl GrowsFrom-set_transport has_iframe;
  times = λ b s t e. GrowsFrom-set_transport s _;
  marks = Rel-mark_closed GrowsFrom Grows-refl GrowsFrom-set_transport;
  reconnects = GrowsFrom-reconnect;
  shuts = GrowsFrom-shut;
  settles = λ c s h. Grows-still s _ h refl refl refl refl refl refl;
  arrives = GrowsFrom-arrive;
  connects = λ s h. Grows-still s _ h refl refl refl refl refl refl;
  beats_on = λ b s h. Grows-still s _ h refl refl refl refl refl refl;
  calms = λ s h. Grows-still s _ h refl refl refl refl refl refl;
  posts = GrowsFrom-post;
}
