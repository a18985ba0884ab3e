-- ===== src/Client/Flash.antt =====
-- The flash transport: Flashsocket.open, send and close, and `init` of Flashsocket.ready.
use socket_io_java.Common.{
  ℕ, suc, Bool, true, false, not, ◌≡◌, refl, Option, none, some, Text, List, [], ◌∷◌, ◌++◌, codes,
  if◌then◌else◌, nat_eq, eqb, join,
}
use socket_io_java.Client.Addresses.{Address}

-- What is put off until flash is there: the open or a send of the web socket transport.
pub data Task : Type 0 where
  opens : Task
  sends : Text → Task

-- The transport and the tasks that wait; `websocket` is whether the transport has its socket, `raised` whether a call
-- ended in an exception.
pub record Flash : Type 0 where
  pub tasks : List Task
  pub websocket : Bool
  pub sent : List Text
  pub closes : ℕ
  pub raised : Bool

-- WS.open, WS.send and WS.close on the property `websocket`.
unfoldable pub run_task : Task → Flash → Flash
run_task opens f = record f { websocket = true }
run_task (sends text) f =
    if f.websocket then record f { sent = f.sent ++ text ∷ [] } else record f { raised = true }

abbrev pub websocket_close : Flash → Flash
websocket_close f =
    if f.websocket then record f { closes = suc f.closes } else record f { raised = true }

-- `add_task` is WebSocket.__addTask of web-socket-js.
module _ (add_task : Task → Flash → Flash) where
  unfoldable pub flash_open : Flash → Flash
  flash_open f = add_task opens f

  unfoldable pub flash_send : Text → Flash → Flash
  flash_send text f = add_task (sends text) f

unfoldable pub flash_close : Flash → Flash
flash_close f = websocket_close (record f { tasks = [] })

-- What `init` reads and sets for all flash transports of a page. `swf_location` is WEB_SOCKET_SWF_LOCATION, `policies`
-- are the ports whose policy files were loaded.
pub record Files : Type 0 where
  pub loaded : Bool
  pub swf_location : Option Text
  pub policies : List ℕ
  pub initialized : ℕ

abbrev movie : Bool → Address → Text
movie crosses a = join (codes "/") (
    (codes "http" ++ ((if a.secure then codes "s" else []) ++ codes ":/"))
    ∷ (a.host ++ (codes ":" ++ a.port))
    ∷ a.resource
    ∷ codes "static/flashsocket"
    ∷ (codes "WebSocketMain" ++ ((if crosses then codes "Insecure" else []) ++ codes ".swf"))
    ∷ [])

abbrev located : Text → Option Text → Option Text
located path none = some path
located path (some t) = some t

unfoldable pub init : Bool → Address → ℕ → Files → Files
init crosses a port f =
    if not f.loaded
    then record f {
      swf_location = located (movie crosses a) f.swf_location;
      policies = (if not (eqb port 843) then f.policies ++ port ∷ [] else f.policies);
      initialized = suc f.initialized;
      loaded = true;
    }
    else f

-- A flash transport that is closed while flash is not there yet loses its tasks and raises an exception, if tasks
-- then wait.
close_early :
    (add_task : Task → Flash → Flash) (f : Flash)
    → ((t : Task) (g : Flash) → add_task t g ≡ record g { tasks = g.tasks ++ t ∷ [] })
    → f.websocket ≡ false
    → ((flash_close (flash_open add_task f)).raised ≡ true)
      × ((flash_close (flash_open add_task f)).tasks ≡ [])
unfolding flash_close flash_open
close_early add_task f h w = rw (h opens f, w) (refl, refl)

-- However many transports become ready, flash is initialized once, for the first one.
init_once :
    (crosses other : Bool) (a b : Address) (port to : ℕ) (f : Files)
    → init other b to (init crosses a port f) ≡ init crosses a port f
unfolding init
init_once crosses other a b port to f = again f.loaded
  where
    again :
        (l : Bool)
        → init other b to (init crosses a port (record f { loaded = l }))
          ≡ init crosses a port (record f { loaded = l })
    again true = refl
    again false = refl
