-- ===== src/Client/Frame/Closing.antt =====
-- Closing a connection, under a frame.
use socket_io_java.Common.{
  ◌≡◌, Bool, true, false, not, ◌&&◌, ◌||◌, Option, none, some, refl, Text, codes,
}
use socket_io_java.Client.State.{Client, Transport, publishes, closes, is_open}
use socket_io_java.Client.Close.{
  on_disconnect, disconnect_with, transport_disconnect_with, transport_disconnect_from, close_with,
  close_from, inner_disconnect, inner_on_close, inner_close, transport_on_close, transport_close,
  transport_on_disconnect, report, reconnect_if, is_booted, reason_args, clear_timeouts, leave,
  shut, set_transport,
}
use socket_io_java.Client.Close.{release, has_iframe}
use socket_io_java.Client.State.{streams}
use socket_io_java.Client.Frame.{Frame, Keeps, Rel-trans, Rel-if}

module _ (F : Frame) where
  open F use {Rel, same, puts, raises, closes_up, drops_iframe, times, reconnects, shuts}

  pub Keeps-clear_timeouts : Keeps F clear_timeouts
  Keeps-clear_timeouts s = cleared s.transport refl
    where
      cleared :
          (o : Option Transport)
          → s.transport ≡ o
          → Rel s (elim o as (λ _. Client) [
            | none ↦ s
            | some t ↦ set_transport s (record t { close_timer = false })
          ])
      cleared none e = same s
      cleared (some t) e = times false s t e

  Keeps-reconnect_if : (b : Bool) → Keeps F (reconnect_if b)
  Keeps-reconnect_if true = reconnects
  Keeps-reconnect_if false = same

  Keeps-report : (reason : Option Text) → Keeps F (report reason)
  unfolding report
  Keeps-report reason s =
      Rel-trans F (puts (publishes (codes "disconnect") (reason_args reason)) s tt) (
        Keeps-reconnect_if (not (is_booted reason) && (s.options.reconnect && not s.reconnecting))
          _)

  Keeps-leave :
      (close : Client → Client) (was : Bool) (reason : Option Text) (o : Option Transport)
      → Keeps F close
      → Keeps F (leave close was reason o)
  Keeps-leave close was reason none k s = raises s
  Keeps-leave close was reason (some t) k s =
      let d = Rel-trans F (k s) (Keeps-clear_timeouts (close s)) in
      Rel-if F was (λ _. Rel-trans F d (Keeps-report reason _)) (λ _. d)

  Keeps-disconnect_with :
      (close : Client → Client) (reason : Option Text)
      → Keeps F close
      → Keeps F (disconnect_with close reason)
  unfolding disconnect_with
  Keeps-disconnect_with close reason k s =
      Rel-if F (s.connected || s.connecting)
        (λ _. Rel-trans F (shuts s) (Keeps-leave close s.connected reason s.transport k (shut s)))
        (λ _. shuts s)

  Keeps-transport_disconnect_from :
      (close notify : Client → Client) (o : Option Transport)
      → Keeps F close
      → Keeps F notify
      → Keeps F (transport_disconnect_from close notify o)
  Keeps-transport_disconnect_from close notify none kc kn s = same s
  Keeps-transport_disconnect_from close notify (some t) kc kn s =
      let g = Rel-if F (is_open t.opened) {s = s} {t = close s} {u = s} (λ _. kc s) (λ _. same s) in
      Rel-trans F (Rel-trans F g (Keeps-clear_timeouts _)) (kn _)

  pub Keeps-transport_disconnect_with :
      (close notify : Client → Client)
      → Keeps F close
      → Keeps F notify
      → Keeps F (transport_disconnect_with close notify)
  unfolding transport_disconnect_with
  Keeps-transport_disconnect_with close notify kc kn s =
      Keeps-transport_disconnect_from close notify s.transport kc kn s

  Keeps-close_from :
      (finish : Client → Client) (o : Option Transport)
      → Keeps F finish
      → Keeps F (close_from finish o)
  Keeps-close_from finish none k s = same s
  Keeps-close_from finish (some t) k s =
      Rel-if F (streams t.kind) (λ _. puts closes s tt)
        (λ _. Rel-trans F (drops_iframe s) (k (release has_iframe s)))

  Keeps-close_with : (finish : Client → Client) → Keeps F finish → Keeps F (close_with finish)
  unfolding close_with
  Keeps-close_with finish k s = Keeps-close_from finish s.transport k s

  Keeps-inner_close : Keeps F inner_close
  unfolding inner_close inner_on_close inner_disconnect
  Keeps-inner_close =
      Keeps-close_with _
        (closes_up _ (Keeps-transport_disconnect_with _ _ same (Keeps-disconnect_with _ none same)))

  pub Keeps-on_disconnect : (reason : Option Text) → Keeps F (on_disconnect reason)
  unfolding on_disconnect
  Keeps-on_disconnect reason = Keeps-disconnect_with inner_close reason Keeps-inner_close

  pub Keeps-transport_on_close : Keeps F transport_on_close
  unfolding transport_on_close
  Keeps-transport_on_close =
      closes_up _ (Keeps-transport_disconnect_with _ _ same (Keeps-on_disconnect none))

  pub Keeps-transport_on_disconnect : Keeps F transport_on_disconnect
  unfolding transport_on_disconnect transport_close
  Keeps-transport_on_disconnect =
      Keeps-transport_disconnect_with _ _ (Keeps-close_with _ Keeps-transport_on_close)
        (Keeps-on_disconnect none)
