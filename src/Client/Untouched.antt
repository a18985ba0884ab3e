-- ===== src/Client/Untouched.antt =====
-- What closing a socket that is neither connected nor connecting leaves alone.
use socket_io_java.Common.{
  Text, Bool, true, false, Option, none, some, ◌≡◌, refl, sym, ◌∙◌, if◌then◌else◌,
}
use socket_io_java.Client.State.{Client, Transport, streams, is_open, closes, put, not_open}
use socket_io_java.Client.Buffer.{on_close}
use socket_io_java.Client.Close.{
  set_transport, release, release_from, has_xhr, has_iframe, mark_closed, clear_timeouts, shut,
  stop, disconnect_with, transport_disconnect_with, transport_disconnect_from,
  transport_on_close_with, close_from, inner_close, close_with, inner_on_close, inner_disconnect,
}

-- The flags of the connection, its packets, and what a reconnection has.
pub record Untouched (s t : Client) : Type 0 where
  pub connected : t.connected ≡ s.connected
  pub connecting : t.connecting ≡ s.connecting
  pub reconnecting : t.reconnecting ≡ s.reconnecting
  pub options : t.options ≡ s.options
  pub buffer : t.buffer ≡ s.buffer
  pub do_buffer : t.do_buffer ≡ s.do_buffer
  pub next_closure : t.next_closure ≡ s.next_closure
  pub closures : t.closures ≡ s.closures

Untouched-trans : {s t u : Client} → Untouched s t → Untouched t u → Untouched s u
Untouched-trans g h = record {
  connected = h.connected ∙ g.connected;
  connecting = h.connecting ∙ g.connecting;
  reconnecting = h.reconnecting ∙ g.reconnecting;
  options = h.options ∙ g.options;
  buffer = h.buffer ∙ g.buffer;
  do_buffer = h.do_buffer ∙ g.do_buffer;
  next_closure = h.next_closure ∙ g.next_closure;
  closures = h.closures ∙ g.closures;
}

Untouched-refl : (s : Client) → Untouched s s
Untouched-refl s = record {
  connected = refl;
  connecting = refl;
  reconnecting = refl;
  options = refl;
  buffer = refl;
  do_buffer = refl;
  next_closure = refl;
  closures = refl;
}

Untouched-set_transport : (s : Client) (t : Transport) → Untouched s (set_transport s t)
Untouched-set_transport s t = record {
  connected = refl;
  connecting = refl;
  reconnecting = refl;
  options = refl;
  buffer = refl;
  do_buffer = refl;
  next_closure = refl;
  closures = refl;
}

Untouched-on_transport :
    (f : Transport → Transport) (o : Option Transport) (s : Client)
    → Untouched s (elim o as (λ _. Client) [ none ↦ s | some t ↦ set_transport s (f t) ])
Untouched-on_transport f none s = Untouched-refl s
Untouched-on_transport f (some t) s = Untouched-set_transport s (f t)

release_from-Untouched :
    (has : Transport → Bool) (o : Option Transport) (s : Client)
    → Untouched s (elim o as (λ _. Client) [ none ↦ s | some t ↦ release_from (has t) t s ])
release_from-Untouched has none s = Untouched-refl s
release_from-Untouched has (some t) s = released (has t)
  where
    released : (b : Bool) → Untouched s (release_from b t s)
    released true = Untouched-set_transport s _
    released false = Untouched-refl s

pub release-Untouched : (has : Transport → Bool) (s : Client) → Untouched s (release has s)
release-Untouched has s = release_from-Untouched has s.transport s

pub mark_closed-Untouched : (s : Client) → Untouched s (on_close (mark_closed s))
unfolding on_close
mark_closed-Untouched s =
    let g = Untouched-on_transport (λ t. record t { opened = not_open }) s.transport s in
    record {
      connected = g.connected;
      connecting = g.connecting;
      reconnecting = g.reconnecting;
      options = g.options;
      buffer = g.buffer;
      do_buffer = g.do_buffer;
      next_closure = g.next_closure;
      closures = g.closures;
    }

shut-Untouched : (s : Client) → s.connected ≡ false → s.connecting ≡ false → Untouched s (shut s)
shut-Untouched s c d = record {
  connected = sym c;
  connecting = sym d;
  reconnecting = refl;
  options = refl;
  buffer = refl;
  do_buffer = refl;
  next_closure = refl;
  closures = refl;
}

-- On a closed socket, onDisconnect does nothing to the transport.
pub disconnect_closed :
    (close : Client → Client) (reason : Option Text) (s : Client)
    → s.connected ≡ false
    → s.connecting ≡ false
    → disconnect_with close reason s ≡ shut s
unfolding disconnect_with
disconnect_closed close reason s h k = rw (h, k)

transport_disconnect-Untouched :
    (o : Option Transport) (s : Client)
    → s.connected ≡ false
    → s.connecting ≡ false
    → Untouched s (transport_disconnect_from stop inner_disconnect o s)
unfolding inner_disconnect
transport_disconnect-Untouched none s c d = Untouched-refl s
transport_disconnect-Untouched (some t) s c d = given (is_open t.opened)
  where
    g : Untouched s (clear_timeouts s)
    g = Untouched-on_transport (λ u. record u { close_timer = false }) s.transport s

    ended : Untouched s (disconnect_with stop none (clear_timeouts s))
    ended =
        rw (disconnect_closed stop none (clear_timeouts s) (g.connected ∙ c) (g.connecting ∙ d)) (
          Untouched-trans g
            (shut-Untouched (clear_timeouts s) (g.connected ∙ c) (g.connecting ∙ d)))

    given : (b : Bool) → Untouched s (inner_disconnect (clear_timeouts (if b then s else s)))
    given true = ended
    given false = ended

inner_on_close-Untouched :
    (s : Client) → s.connected ≡ false → s.connecting ≡ false → Untouched s (inner_on_close s)
unfolding inner_on_close transport_on_close_with transport_disconnect_with
inner_on_close-Untouched s c d =
    let m = mark_closed-Untouched s in
    let u = on_close (mark_closed s) in
    let t = transport_disconnect-Untouched u.transport u (m.connected ∙ c) (m.connecting ∙ d) in
    Untouched-trans m (Untouched-trans t (release-Untouched has_xhr _))

-- `close` under a closed socket.
pub inner_close-Untouched :
    (s : Client) → s.connected ≡ false → s.connecting ≡ false → Untouched s (inner_close s)
unfolding inner_close close_with
inner_close-Untouched s c d = closed s.transport
  where
    r : Untouched s (release has_iframe s)
    r = release-Untouched has_iframe s

    posts : Untouched s (inner_on_close (release has_iframe s))
    posts =
        Untouched-trans r
          (inner_on_close-Untouched (release has_iframe s) (r.connected ∙ c) (r.connecting ∙ d))

    given :
        (b : Bool) → Untouched s (if b then put closes s else inner_on_close (release has_iframe s))
    given true = record {
      connected = refl;
      connecting = refl;
      reconnecting = refl;
      options = refl;
      buffer = refl;
      do_buffer = refl;
      next_closure = refl;
      closures = refl;
    }
    given false = posts

    closed : (o : Option Transport) → Untouched s (close_from inner_on_close o s)
    closed none = Untouched-refl s
    closed (some t) = given (streams t.kind)
