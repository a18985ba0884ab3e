-- ===== src/Tests/Choosing.antt =====
-- The choice of a transport, for a browser that has no web socket.
use socket_io_java.Common.{
  Bool, true, false, not, none, ◌≡◌, refl, Text, List, [], ◌∷◌, codes, ◌==◌, text_eq, nat_eq, arith,
}
use socket_io_java.Client.Fallback.{Attempt, connecting_over, connect_failed, connect_over, run_out}
use socket_io_java.Client.Fallback.Rounds.{HasTried, run_out-connect_over}

abbrev has_requests : Text → Bool
has_requests t = not (t == codes "websocket")

abbrev offered : List Text
offered = codes "websocket" ∷ codes "xhr-polling" ∷ codes "jsonp-polling" ∷ []

abbrev fresh : Attempt
fresh = record {
  connected = false;
  connecting = true;
  try_multiple = true;
  transports = offered;
  remaining = none;
  chosen = none;
  timer = false;
  raised = false;
  log = [];
}

run_out-connect_over_example :
    HasTried has_requests offered []
      (run_out has_requests 3 (connect_over has_requests offered fresh))
run_out-connect_over_example =
    run_out-connect_over has_requests 3 offered fresh (refl, (refl, (refl, tt))) (omega arith) refl
      refl refl refl

-- Once the names are used up, a later connection over the same transports gives up at the first timeout: the names
-- that are left are never made new.
second_time :
    (run_out has_requests 3 (
      connect_over has_requests offered
        (record (run_out has_requests 3 (connect_over has_requests offered fresh)) {
          log = [];
        }))).log
    ≡ connecting_over (codes "xhr-polling") ∷ connect_failed ∷ []
unfolding run_out connect_over
second_time = refl
