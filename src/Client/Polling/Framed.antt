-- ===== src/Client/Polling/Framed.antt =====
-- The client's smallest steps never open a transport, nor touch the request of an open one.
use socket_io_java.Common.{Bool, some, ◌≡◌, refl, ap, inl, inr}
use socket_io_java.Client.State.{Client, Transport, not_open}
use socket_io_java.Client.Buffer.{packet, set_buffer, on_close}
use socket_io_java.Client.Close.{
  set_transport, has_iframe, mark_closed, transport_on_close_with, reconnect,
}
use socket_io_java.Client.Opening.{settle, arrive}
use socket_io_java.Client.Frame.{Frame, unnamed}
use socket_io_java.Client.Frame.Buffering.{packet-buffered, set_buffer-buffered, arrive-buffered}
use socket_io_java.Client.Polling.{
  FollowsOption-refl, FollowsOption-trans, FollowsOption-IsClosed, FollowsFrom, FollowsFrom-still,
  FollowsFrom-on_transport, IsClosed, mark_closed-IsClosed, release_from-Follows,
  has_iframe-Follows, released_closed,
}

pub set_buffer-transport : (v : Bool) (s : Client) → (set_buffer v s).transport ≡ s.transport
set_buffer-transport v s = ap (λ u. u.transport) (set_buffer-buffered v s)

pub FollowsFrom-mark_closed : (s : Client) → FollowsFrom s (mark_closed s)
FollowsFrom-mark_closed s =
    FollowsFrom-on_transport (λ t. record t { opened = not_open }) s.transport s refl
      (λ t. record { kind = refl; left = λ _. inl refl; asked = λ e. e })

module _ (finish : Client → Client) (k : (s : Client) → FollowsFrom s (finish s)) (s : Client) where
  marked : Client
  unfolding on_close
  marked = on_close (mark_closed s)

  marked-IsClosed : IsClosed (finish marked).transport
  unfolding marked on_close
  marked-IsClosed =
      FollowsOption-IsClosed marked.transport (finish marked).transport (k marked)
        (mark_closed-IsClosed s)

  pub FollowsFrom-closes_up : FollowsFrom s (transport_on_close_with finish s)
  unfolding transport_on_close_with marked on_close
  FollowsFrom-closes_up =
      FollowsOption-trans s.transport (finish marked).transport _
        (FollowsOption-trans s.transport marked.transport (finish marked).transport
          (FollowsFrom-mark_closed s) (k marked))
        (released_closed (finish marked) marked-IsClosed)

  -- A transport that is told of its end is closed.
  pub closes_up-IsClosed : IsClosed (transport_on_close_with finish s).transport
  unfolding transport_on_close_with marked on_close
  closes_up-IsClosed =
      FollowsOption-IsClosed (finish marked).transport _
        (released_closed (finish marked) marked-IsClosed) marked-IsClosed

pub FollowsFrom-times :
    (b : Bool) (s : Client) (t : Transport)
    → s.transport ≡ some t
    → FollowsFrom s (set_transport s (record t { close_timer = b }))
FollowsFrom-times b s t e =
    rw e (record { kind = refl; left = λ _. inr (refl, refl); asked = λ e. e })

pub following_reconnect : (s : Client) → FollowsFrom s (reconnect s)
unfolding reconnect
following_reconnect s = FollowsOption-refl s.transport

unfoldable pub following : Frame
unfolding settle
following = record {
  Rel = FollowsFrom;
  naming = unnamed FollowsFrom;
  same = λ s. FollowsOption-refl s.transport;
  chain = λ s t u. FollowsOption-trans s.transport t.transport u.transport;
  puts = λ o s e. FollowsOption-refl s.transport;
  raises = λ s. FollowsOption-refl s.transport;
  sends = λ p s. FollowsFrom-still s (packet p s) (ap (λ u. u.transport) (packet-buffered p s));
  flushes = λ v s. FollowsFrom-still s (set_buffer v s) (set_buffer-transport v s);
  names = λ key n f s. FollowsOption-refl s.transport;
  closes_up = FollowsFrom-closes_up;
  drops_iframe =
      λ s. release_from-Follows has_iframe s.transport s refl (λ t e. has_iframe-Follows t);
  times = FollowsFrom-times;
  marks = FollowsFrom-mark_closed;
  reconnects = following_reconnect;
  shuts = λ s. FollowsOption-refl s.transport;
  settles = λ c s. FollowsOption-refl s.transport;
  arrives = λ s e. FollowsFrom-still s (arrive s) (ap (λ u. u.transport) (arrive-buffered s));
  connects = λ s. FollowsOption-refl s.transport;
  beats_on = λ b s. FollowsOption-refl s.transport;
  calms = λ s. FollowsOption-refl s.transport;
  posts = λ s. FollowsOption-refl s.transport;
}
