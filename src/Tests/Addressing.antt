-- ===== src/Tests/Addressing.antt =====
-- Addresses, and the answer to a handshake, at concrete servers.
use socket_io_java.Common.{
  suc, Bool, true, false, none, some, ◌≡◌, refl, Text, List, [], ◌∷◌, ◌++◌, codes, decimal, arith,
  text_eq, nat_eq, ◌*◌, join,
}
use socket_io_java.Util.Indexing.{index_of}
use socket_io_java.Util.Intersect.{intersect}
use socket_io_java.Client.State.{xhr_polling}
use socket_io_java.Client.Fallback.{connect_failed, get_transport}
use socket_io_java.Client.Addresses.{Address, prepare_url}
use socket_io_java.Client.Handshake.{Link, agree, connect, on_handshake, agree-join, connect_stuck}

abbrev server : Address
server = record {
  host = codes "example.org";
  port = codes "8080";
  secure = false;
  resource = codes "socket.io";
  base_query = [];
}

url :
    prepare_url xhr_polling server (codes "41")
    ≡ codes "http://example.org:8080/socket.io/1/xhr-polling/41"
unfolding prepare_url
url = refl

abbrev names : List Text
names = codes "websocket" ∷ codes "xhr-polling" ∷ []

agree-join_example :
    agree
      (codes "xhr-polling" ∷ [])
      (join (b':' ∷ []) (codes "4f" ∷ decimal 15 ∷ decimal 25 ∷ join (b',' ∷ []) names ∷ []))
    ≡ record {
      sessionid = some (codes "4f");
      heartbeat_timeout = some (15 * 1000);
      close_timeout = some (25 * 1000);
      transports = intersect names (codes "xhr-polling" ∷ []);
    }
agree-join_example =
    agree-join (codes "xhr-polling" ∷ []) (codes "4f") 15 25 (codes "websocket")
      (codes "xhr-polling" ∷ []) (refl, (refl, tt)) (ground arith) (ground arith) refl

abbrev link : Link
link = record {
  attempt = record {
    connected = false;
    connecting = false;
    try_multiple = true;
    transports = [];
    remaining = none;
    chosen = none;
    timer = false;
    raised = false;
    log = [];
  };
  terms = none;
  heartbeat_timer = false;
  asked = 0;
  errors = [];
}

abbrev nothing_usable : Text → Bool
nothing_usable t = false

connect_stuck_example :
    let m =
      on_handshake nothing_usable
        (codes "xhr-polling" ∷ [])
        (codes "4f:15:25:xhr-polling")
        (connect link) in
    (m.attempt.log ≡ [] ++ connect_failed ∷ [])
    × (m.attempt.chosen ≡ none)
    × (m.attempt.connecting ≡ true)
    × (m.asked ≡ suc 0)
    × (connect m ≡ m)
unfolding agree get_transport index_of decimal
connect_stuck_example =
    connect_stuck nothing_usable (codes "xhr-polling" ∷ []) (codes "4f") 15 25 (codes "xhr-polling")
      [] link (refl, (refl, tt)) (ground arith) (ground arith) refl (refl, tt) refl
