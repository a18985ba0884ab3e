-- ===== src/Client/Opening.antt =====
-- Socket.onConnect, with the end of a reconnection that it brings about.
use socket_io_java.Common.{
  ℕ, true, false, Option, none, some, List, [], ◌∷◌, ◌++◌, Text, codes, decimal, if◌then◌else◌,
  ◌==◌, text_eq, nat_eq, eqb,
}
use socket_io_java.Value.{Value, num, str}
use socket_io_java.Client.State.{
  name_of, Client, Namespace, Closure, Transport, emits, publishes, put,
}
use socket_io_java.Client.Buffer.{set_buffer}
use socket_io_java.Client.Namespaces.{namespace_packet, connect_packet}

-- The loop of `reset` over the namespaces: each but the one under '' connects again.
unfoldable pub rejoin : List (Text × Namespace) → Client → Client
unfolding namespace_packet
rejoin [] s = s
rejoin ((key, n) ∷ ns) s =
    rejoin ns (if key == [] then s else namespace_packet key n connect_packet s)

abbrev transport_name : Option Transport → List Value
transport_name none = []
transport_name (some t) = str (name_of t.kind) ∷ []

abbrev attempts : Option (ℕ × ℕ) → List Value
attempts none = []
attempts (some (n, delay)) = num (decimal n) ∷ []

-- `removeListener('connect', maybeReconnect)`.
abbrev pub without : ℕ → List Closure → List Closure
without i [] = []
without i (c ∷ cs) = if eqb c.identity i then cs else c ∷ without i cs

-- The closure `reset`: what a socket that is connected again does first, and what is reset in any case.
unfoldable pub greet : Client → Client
unfolding rejoin
greet s =
    if s.connected
    then put (publishes (codes "reconnect") (transport_name s.transport ++ attempts s.reconnection))
        (rejoin s.namespaces s)
    else s

unfoldable pub settle : Closure → Client → Client
settle c s = record s {
  options = record s.options { try_multiple = c.try_multiple };
  reconnecting = false;
  reconnection = none;
  reconnection_timer = false;
  closures = without c.identity s.closures;
}

unfoldable pub reset : Closure → Client → Client
unfolding greet settle
reset c s = settle c (greet s)

-- The registered closures, called in order by emit('connect'): each resets if the socket still reconnects.
unfoldable pub resume : List Closure → Client → Client
unfolding reset
resume [] s = s
resume (c ∷ cs) s = resume cs (if s.reconnecting then reset c s else s)

-- Socket.onConnect: the flags and the buffer, then emit('connect'). The listener that `connect` adds once clears the
-- connect timer.
unfoldable pub arrive : Client → Client
unfolding set_buffer
arrive s =
    let s' = record s { connected = true; connecting = false } in
    if s.do_buffer then s' else set_buffer false s'

unfoldable pub emit_connect : Client → Client
unfolding resume
emit_connect s = record (resume s.closures (put (emits (codes "connect")) s)) {
  connect_timer = false;
}

unfoldable pub on_connect : Client → Client
unfolding arrive emit_connect
on_connect s = if s.connected then s else emit_connect (arrive s)
