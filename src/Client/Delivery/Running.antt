-- ===== src/Client/Delivery/Running.antt =====
-- Every event keeps the queue.
use socket_io_java.Common.{◌≡◌, refl, List, ◌++◌}
use socket_io_java.Parser.Packet.{Packet}
use socket_io_java.Parser.Encode.{Json}
use socket_io_java.Client.State.{Client}
use socket_io_java.Client.Buffer.{on_open}
use socket_io_java.Client.Events.{Event, run}
use socket_io_java.Client.Frame.Running.{Keeps-run}
use socket_io_java.Client.Delivery.{IsOrdered, pending, handed, Grows-still}
use socket_io_java.Client.Delivery.Framed.{growing, GrowsFrom, GrowsFrom-set_transport}

GrowsFrom-on_open : (s : Client) → GrowsFrom s (on_open s)
unfolding on_open
GrowsFrom-on_open s h = Grows-still s _ h refl refl refl refl refl refl

GrowsFrom-run : (js : Json) (es : List Event) (s : Client) → GrowsFrom s (run js es s)
unfolding growing
GrowsFrom-run = Keeps-run growing GrowsFrom-set_transport GrowsFrom-on_open

-- Whatever happens to an ordered connection (calls, messages, timers, a closed or reopened socket), the packets that
-- Socket.packet is called with meanwhile are, each once and in the order of the calls, what is added to the
-- packets given to the transport followed by those in the buffer, at the end; and the connection stays ordered.
pub run-Grows :
    (js : Json) (es : List Event) (s : Client)
    → IsOrdered s
    → IsOrdered (run js es s)
      × ((ps : List Packet) × (handed (run js es s).log ≡ handed s.log ++ ps)
          × (pending (run js es s) ≡ pending s ++ ps))
run-Grows js es s h =
    let g = GrowsFrom-run js es s h in let (ps, p, k) = g.added in (g.ordered, (ps, k, p))
