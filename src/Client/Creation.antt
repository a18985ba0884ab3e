-- ===== src/Client/Creation.antt =====
-- The constructor of io.Socket, its handler for 'unload', and Socket.disconnectSync.
use socket_io_java.Common.{
  Bool, true, false, not, ◌&&◌, ◌||◌, ◌≡◌, refl, ap, ◌∙◌, ◌++◌, arith, none, some, [], ◌∷◌, codes,
  if◌then◌else◌, text_eq, nat_eq,
}
use socket_io_java.Client.State.{Client, Options}
use socket_io_java.Client.Close.{on_disconnect}
use socket_io_java.Client.Disconnection.{on_disconnect_outcome, begins_to_reconnect}

-- The options that only the constructor reads.
pub record Start : Type 0 where
  pub sync_on_unload : Bool
  pub auto_connect : Bool

-- A new socket: its state, whether it listens to 'unload', and whether the handshake was begun.
pub record Created : Type 0 where
  pub client : Client
  pub on_unload : Bool
  pub asked : Bool

-- `options` and `start` are the options after those of the caller are merged in; `crosses` is isXDomain().
unfoldable pub new_socket : Options → Start → Bool → Bool → Created
new_socket options start crosses cors = record {
  client = record {
    options = options;
    connected = false;
    connecting = start.auto_connect;
    reconnecting = false;
    opened = false;
    namespaces = [];
    buffer = [];
    do_buffer = false;
    transport = none;
    heartbeat_timer = false;
    connect_timer = false;
    reconnection = none;
    reconnection_timer = false;
    closures = [];
    next_closure = 0;
    log = [];
    raised = false;
  };
  on_unload = start.sync_on_unload && (not crosses || cors);
  asked = start.auto_connect;
}

-- Socket.disconnectSync, whose request is opened and never sent.
unfoldable pub disconnect_sync : Client → Client
unfolding on_disconnect
disconnect_sync s = on_disconnect (some (codes "booted")) s

-- The page is left.
unfoldable pub unload : Bool → Client → Client
unfolding disconnect_sync
unload listens s = if listens then disconnect_sync s else s

never_begins : (s : Client) → begins_to_reconnect (some (codes "booted")) s ≡ false
never_begins s = ground arith

-- A page that is left disconnects a socket that listens to it, and never begins to reconnect; what waited in the buffer is not
-- sent.
unload_outcome :
    (s : Client)
    → ((unload true s).connected ≡ false)
      × ((unload true s).connecting ≡ false)
      × ((unload true s).reconnecting ≡ s.reconnecting)
      × ((unload true s).buffer ≡ s.buffer)
      × ((unload true s).closures ≡ s.closures)
unfolding unload disconnect_sync
unload_outcome s =
    let h = on_disconnect_outcome (some (codes "booted")) s in
    let e = never_begins s in
    (
      h.0,
      h.1,
      h.4 ∙ ap (λ b. s.reconnecting || b) e ∙ or_false s.reconnecting,
      h.2,
      h.5
          ∙ ap
              (λ b.
                if b
                then s.closures
                  ++ record { identity = s.next_closure; try_multiple = s.options.try_multiple }
                    ∷ []
                else s.closures)
              e,
    )
  where
    or_false : (b : Bool) → (b || false) ≡ b
    or_false true = refl
    or_false false = refl
