-- ===== src/Client/Close.antt =====
-- Closing a connection. Socket.onDisconnect and the transport's close, onClose and onDisconnect call
-- one another. Each body stands here once, with its calls as arguments, and the functions below put them together in
-- layers: a call that meets a closed socket or a closed transport goes no deeper.
use socket_io_java.Common.{
  suc, Bool, true, false, not, ◌&&◌, ◌||◌, Option, none, some, List, [], ◌∷◌, ◌++◌, Text, codes,
  if◌then◌else◌, ◌==◌, text_eq, nat_eq,
}
use socket_io_java.Value.{Value, str}
use socket_io_java.Client.State.{
  streams, xhr_polling, htmlfile, Channel, idle, Client, Transport, not_open, is_open, closes,
  publishes, raise, put,
}
use socket_io_java.Client.Buffer.{on_close}

abbrev pub set_transport : Client → Transport → Client
set_transport s t = record s { transport = some t }

-- Transport.clearTimeouts; `reopenTimeout` is never set.
abbrev pub clear_timeouts : Client → Client
clear_timeouts s = elim s.transport [
  | none ↦ s
  | some t ↦ set_transport s (record t { close_timer = false })
]

-- Socket.reconnect: a new closure `maybeReconnect` waits for the timer and for 'connect'.
unfoldable pub reconnect : Client → Client
reconnect s = record s {
  options = record s.options { try_multiple = false };
  reconnecting = true;
  reconnection = some (0, s.options.delay);
  reconnection_timer = true;
  closures =
      s.closures
      ++ record { identity = s.next_closure; try_multiple = s.options.try_multiple } ∷ [];
  next_closure = suc s.next_closure;
}

abbrev pub reason_args : Option Text → List Value
reason_args none = []
reason_args (some r) = str r ∷ []

abbrev pub is_booted : Option Text → Bool
is_booted none = false
is_booted (some r) = r == codes "booted"

abbrev pub reconnect_if : Bool → Client → Client
reconnect_if true s = reconnect s
reconnect_if false s = s

abbrev pub shut : Client → Client
shut s = record s { connected = false; connecting = false; opened = false }

-- The end of Socket.onDisconnect, where the socket was connected.
unfoldable pub report : Option Text → Client → Client
unfolding reconnect
report reason s =
    reconnect_if (not (is_booted reason) && (s.options.reconnect && not s.reconnecting))
      (put (publishes (codes "disconnect") (reason_args reason)) s)

-- What onDisconnect does with the transport of a socket that was connected or connecting.
abbrev pub leave : (Client → Client) → Bool → Option Text → Option Transport → Client → Client
leave close was_connected reason none s = raise s
leave close was_connected reason (some t) s =
    if was_connected then report reason (clear_timeouts (close s)) else clear_timeouts (close s)

-- Socket.onDisconnect, over `transport.close`.
unfoldable pub disconnect_with : (Client → Client) → Option Text → Client → Client
unfolding report
disconnect_with close reason s =
    if s.connected || s.connecting
    then leave close s.connected reason s.transport (shut s)
    else shut s

-- Transport.onDisconnect, over `this.close` and `this.socket.onDisconnect`.
abbrev pub transport_disconnect_from :
    (Client → Client) → (Client → Client) → Option Transport → Client → Client
transport_disconnect_from close notify none s = s
transport_disconnect_from close notify (some t) s =
    notify (clear_timeouts (if is_open t.opened then close s else s))

unfoldable pub transport_disconnect_with : (Client → Client) → (Client → Client) → Client → Client
transport_disconnect_with close notify s = transport_disconnect_from close notify s.transport s

abbrev pub mark_closed : Client → Client
mark_closed s = elim s.transport [
  | none ↦ s
  | some t ↦ set_transport s (record t { opened = not_open })
]

abbrev pub is_idle : Channel → Bool
is_idle idle = true
is_idle _ = false

-- `if (this.xhr)` in XHRPolling.onClose, and `if (this.iframe)` in HTMLFile.destroy. JSONPPolling inherits the first, and
-- has no such property.
abbrev pub has_xhr : Transport → Bool
has_xhr t = elim t.kind [ xhr_polling ↦ not (is_idle t.channel) | _ ↦ false ]

abbrev pub has_iframe : Transport → Bool
has_iframe t = elim t.kind [ htmlfile ↦ not (is_idle t.channel) | _ ↦ false ]

-- The request is aborted, or the iframe removed.
abbrev pub release_from : Bool → Transport → Client → Client
release_from true t s = set_transport s (record t { channel = idle })
release_from false t s = s

abbrev pub release : (Transport → Bool) → Client → Client
release has s = elim s.transport [ none ↦ s | some t ↦ release_from (has t) t s ]

-- Transport.onClose, over `this.onDisconnect`, and what XHRPolling.onClose does after it.
unfoldable pub transport_on_close_with : (Client → Client) → Client → Client
unfolding on_close
transport_on_close_with finish s = release has_xhr (finish (on_close (mark_closed s)))

-- `close` of a transport, over `this.onClose`: a web socket closes later, the others at once, and HTMLFile.close
-- removes the iframe first.
abbrev pub close_from : (Client → Client) → Option Transport → Client → Client
close_from finish none s = s
close_from finish (some t) s =
    if streams t.kind then put closes s else finish (release has_iframe s)

unfoldable pub close_with : (Client → Client) → Client → Client
close_with finish s = close_from finish s.transport s

-- Nothing deeper is called.
abbrev pub stop : Client → Client
stop s = s

-- The calls under a closed socket.
unfoldable pub inner_disconnect : Client → Client
unfolding disconnect_with
inner_disconnect = disconnect_with stop none

unfoldable pub inner_on_close : Client → Client
unfolding transport_on_close_with transport_disconnect_with inner_disconnect
inner_on_close = transport_on_close_with (transport_disconnect_with stop inner_disconnect)

unfoldable pub inner_close : Client → Client
unfolding close_with inner_on_close
inner_close = close_with inner_on_close

-- Socket.onDisconnect.
unfoldable pub on_disconnect : Option Text → Client → Client
unfolding disconnect_with inner_close
on_disconnect = disconnect_with inner_close

-- Transport.onClose: the transport is closed by then, so its onDisconnect does not close it again.
unfoldable pub transport_on_close : Client → Client
unfolding transport_on_close_with transport_disconnect_with on_disconnect
transport_on_close = transport_on_close_with (transport_disconnect_with stop (on_disconnect none))

-- `close` of the transport.
unfoldable pub transport_close : Client → Client
unfolding close_with transport_on_close
transport_close = close_with transport_on_close

-- Transport.onDisconnect.
unfoldable pub transport_on_disconnect : Client → Client
unfolding transport_disconnect_with transport_close on_disconnect
transport_on_disconnect = transport_disconnect_with transport_close (on_disconnect none)
