-- ===== src/Client/Layers.antt =====
-- The layers of Client/Close satisfy the equations of the code, in which the four functions call one another. That the calls
-- end is in Client/Ending.
use socket_io_java.Common.{refl, false, Option, Text, none, ◌≡◌, sym, arith}
use socket_io_java.Common.{ap, ◌∙◌, some, if◌then◌else◌}
use socket_io_java.Client.Untouched.{mark_closed-Untouched, release-Untouched}
use socket_io_java.Client.State.{streams, put, closes, Transport, Client}
use socket_io_java.Client.Buffer.{on_close}
use socket_io_java.Client.Close.{
  release, has_xhr, has_iframe, close_from, disconnect_with, inner_disconnect, inner_on_close,
  inner_close, shut, close_with, transport_disconnect_with, transport_on_close_with, on_disconnect,
  transport_on_close, transport_close, transport_on_disconnect, stop, mark_closed,
}

-- On a closed transport, onDisconnect does not close again.
pub transport_disconnect_closed :
    (close notify : Client → Client) (s : Client)
    → transport_disconnect_with close notify (on_close (mark_closed s))
      ≡ transport_disconnect_with stop notify (on_close (mark_closed s))
unfolding transport_disconnect_with on_close
transport_disconnect_closed close notify s = ground arith

-- Transport.onClose calls Transport.onDisconnect.
pub transport_on_close_lem :
    (s : Client) → transport_on_close s ≡ transport_on_close_with transport_on_disconnect s
unfolding transport_on_close transport_on_close_with transport_on_disconnect
transport_on_close_lem s =
    ap (release has_xhr) (sym (transport_disconnect_closed transport_close (on_disconnect none) s))

transport_disconnect_same :
    (s : Client)
    → s.connected ≡ false
    → s.connecting ≡ false
    → transport_disconnect_with stop (on_disconnect none) s
      ≡ transport_disconnect_with stop inner_disconnect s
unfolding transport_disconnect_with on_disconnect inner_disconnect disconnect_with
transport_disconnect_same s h k = ground arith

on_close_same :
    (s : Client)
    → s.connected ≡ false
    → s.connecting ≡ false
    → transport_on_close s ≡ inner_on_close s
unfolding transport_on_close inner_on_close transport_on_close_with
on_close_same s c d =
    let m = mark_closed-Untouched s in
    ap (release has_xhr)
      (transport_disconnect_same (on_close (mark_closed s)) (m.connected ∙ c) (m.connecting ∙ d))

pub close_from_same :
    (f g : Client → Client) (o : Option Transport) (s : Client)
    → f (release has_iframe s) ≡ g (release has_iframe s)
    → close_from f o s ≡ close_from g o s
close_from_same f g none s e = refl
close_from_same f g (some t) s e = ap (λ u. if streams t.kind then put closes s else u) e

close_same :
    (s : Client) → s.connected ≡ false → s.connecting ≡ false → transport_close s ≡ inner_close s
unfolding transport_close inner_close close_with
close_same s c d =
    let r = release-Untouched has_iframe s in
    close_from_same transport_on_close inner_on_close s.transport s
      (on_close_same (release has_iframe s) (r.connected ∙ c) (r.connecting ∙ d))

-- Socket.onDisconnect closes the transport with `close`, which may call Socket.onDisconnect again.
pub on_disconnect_lem :
    (reason : Option Text) (s : Client)
    → on_disconnect reason s ≡ disconnect_with transport_close reason s
unfolding on_disconnect disconnect_with
on_disconnect_lem reason s = ground (arith, close_same (shut s))

-- The four functions satisfy the equations of the code: Socket.onDisconnect and the transport's onClose,
-- close and onDisconnect are their bodies over one another.
close_equations :
    (reason : Option Text) (s : Client)
    → (on_disconnect reason s ≡ disconnect_with transport_close reason s)
      × (transport_on_close s ≡ transport_on_close_with transport_on_disconnect s)
      × (transport_close s ≡ close_with transport_on_close s)
      × (transport_on_disconnect s
          ≡ transport_disconnect_with transport_close (on_disconnect none) s)
unfolding transport_close transport_on_disconnect
close_equations reason s = (on_disconnect_lem reason s, transport_on_close_lem s, refl, refl)
