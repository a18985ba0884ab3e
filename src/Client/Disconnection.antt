-- ===== src/Client/Disconnection.antt =====
-- What Socket.onDisconnect leaves behind.
use socket_io_java.Common.{
  ◌∷◌, if◌then◌else◌, Bool, true, false, not, ◌&&◌, ◌||◌, Option, none, some, ◌≡◌, Text, arith,
  ◌++◌, [], lookup, codes, text_eq, nat_eq,
}
use socket_io_java.Client.State.{Client, Transport, Namespace}
use socket_io_java.Parser.Packet.{Packet}
use socket_io_java.Common.{refl}
use socket_io_java.Client.Untouched.{Untouched, inner_close-Untouched}
use socket_io_java.Client.Buffer.{packet}
use socket_io_java.Client.Namespaces.{of, namespace_at, namespace_packet}
use socket_io_java.Client.Packets.{say_goodbye, disconnect, disconnect_packet}
use socket_io_java.Client.Close.{
  on_disconnect, disconnect_with, inner_close, report, reconnect, is_booted, shut,
}

abbrev is_there : Option Transport → Bool
is_there none = false
is_there (some t) = true

-- Whether onDisconnect begins to reconnect: the socket was connected over a transport, the reason is not
-- 'booted', the option is set, and it does not reconnect already.
abbrev pub begins_to_reconnect : Option Text → Client → Bool
begins_to_reconnect reason s =
    s.connected
    && (is_there s.transport
        && (not (is_booted reason) && (s.options.reconnect && not s.reconnecting)))

disconnect_outcome :
    (close : Client → Client) (reason : Option Text) (s : Client)
    → Untouched (shut s) (close (shut s))
    → ((disconnect_with close reason s).connected ≡ false)
      × ((disconnect_with close reason s).connecting ≡ false)
      × ((disconnect_with close reason s).buffer ≡ s.buffer)
      × ((disconnect_with close reason s).do_buffer ≡ s.do_buffer)
      × ((disconnect_with close reason s).reconnecting
          ≡ (s.reconnecting || begins_to_reconnect reason s))
      × ((disconnect_with close reason s).closures ≡ (
          if begins_to_reconnect reason s
          then s.closures
            ++ record { identity = s.next_closure; try_multiple = s.options.try_multiple } ∷ []
          else s.closures))
unfolding disconnect_with report reconnect
disconnect_outcome close reason s h = ground arith

-- After Socket.onDisconnect the socket is neither connected nor connecting, in every state and for every reason. Its
-- buffer is kept. It is reconnecting exactly if it was, or begins to; it begins to if it was
-- connected over a transport, the reason is not 'booted', the option 'reconnect' is set, and it was
-- not reconnecting; then one more closure waits for 'connect', and otherwise none is added.
pub on_disconnect_outcome :
    (reason : Option Text) (s : Client)
    → ((on_disconnect reason s).connected ≡ false)
      × ((on_disconnect reason s).connecting ≡ false)
      × ((on_disconnect reason s).buffer ≡ s.buffer)
      × ((on_disconnect reason s).do_buffer ≡ s.do_buffer)
      × ((on_disconnect reason s).reconnecting ≡ (s.reconnecting || begins_to_reconnect reason s))
      × ((on_disconnect reason s).closures ≡ (
          if begins_to_reconnect reason s
          then s.closures
            ++ record { identity = s.next_closure; try_multiple = s.options.try_multiple } ∷ []
          else s.closures))
unfolding on_disconnect
on_disconnect_outcome reason s =
    disconnect_outcome inner_close reason s (inner_close-Untouched (shut s) refl refl)

packet_waits :
    (p : Packet) (s : Client) → s.do_buffer ≡ true → (packet p s).buffer ≡ s.buffer ++ p ∷ []
unfolding packet
packet_waits p s b = ground arith

of_there : (s : Client) (n : Namespace) → lookup [] s.namespaces ≡ some n → of (some []) s ≡ s
unfolding of
of_there s n e = rw (e, of)

namespace_at_there :
    (s : Client) (n : Namespace) → lookup [] s.namespaces ≡ some n → namespace_at (some []) s ≡ n
unfolding namespace_at
namespace_at_there s n e = rw (e, namespace_at)

say_goodbye_there :
    (s : Client) (n : Namespace)
    → lookup [] s.namespaces ≡ some n
    → say_goodbye s ≡ namespace_packet [] n disconnect_packet s
unfolding say_goodbye
say_goodbye_there s n e = rw (of_there s n e, namespace_at_there s n e)

namespace_packet_waits :
    (n : Namespace) (p : Packet) (s : Client)
    → s.do_buffer ≡ true
    → (namespace_packet [] n p s).buffer ≡ s.buffer ++ record p { endpoint = some n.name } ∷ []
unfolding namespace_packet
namespace_packet_waits n p s b = packet_waits (record p { endpoint = some n.name }) s b

-- Socket.disconnect on a connected and opened socket whose transport posts: the socket is disconnected, and the
-- packet that tells the server stays in the buffer, behind what waited there.
pub disconnect_while_posting :
    (s : Client) (n : Namespace)
    → s.connected ≡ true
    → s.opened ≡ true
    → s.do_buffer ≡ true
    → lookup [] s.namespaces ≡ some n
    → ((disconnect s).connected ≡ false)
      × ((disconnect s).buffer
          ≡ s.buffer ++ record disconnect_packet { endpoint = some n.name } ∷ [])
unfolding disconnect
disconnect_while_posting s n c o b e = ground (
  arith,
  on_disconnect_outcome (some (codes "booted")) (say_goodbye s),
  say_goodbye_there s n e,
  namespace_packet_waits n disconnect_packet s b,
)
