-- ===== src/Tests/Backing.antt =====
-- A reconnection at a concrete socket.
use socket_io_java.Common.{
  Bool, true, false, none, some, ◌≡◌, refl, inl, arith, Text, List, [], ◌∷◌, ◌++◌, codes,
}
use socket_io_java.Client.Backoff.{Backoff, attempts_again, timer_ends, handshake_fails, reconnect}
use socket_io_java.Client.Backoff.Bounds.{
  IsBounded, Step, steps, reconnects, timer_ends_with, handshake_fails_with, connects_with,
  steps-IsBounded,
}
use socket_io_java.Client.Backoff.Attempts.{lost, announced, fire, rounds, rounds_stuck}

abbrev any : Text → Bool
any t = true

abbrev socket : Backoff
socket = record {
  max_attempts = 3;
  limit = some 1500;
  first_delay = 500;
  try_multiple = true;
  saved = false;
  connected = true;
  connecting = false;
  reconnecting = false;
  attempts = 0;
  delay = 0;
  redo = false;
  transports = codes "xhr-polling" ∷ [];
  transport = none;
  timers = [];
  next = 0;
  timer = none;
  on_connect = false;
  on_failed = false;
  connect_timeout = true;
  connect_timers = 0;
  asked = 0;
  log = [];
}

abbrev story : List Step
story =
    reconnects ∷ timer_ends_with 0 ∷ handshake_fails_with ∷ timer_ends_with 1 ∷ connects_with ∷ []

steps-IsBounded_example : IsBounded (some 1500) 500 3 (steps any story (lost socket))
steps-IsBounded_example =
    steps-IsBounded any (some 1500) 500 3 story (lost socket)
      (refl, refl, refl, inl (omega arith), tt)

-- The second delay is beyond the limit, and stays.
reports :
    announced (some 1500) 500 3
    ≡ attempts_again 1000 1 ∷ attempts_again 2000 2 ∷ attempts_again 2000 3 ∷ []
reports = refl

rounds_stuck_example :
    let e = handshake_fails (fire any (rounds any 3 (reconnect (lost socket)))) in
    (e.reconnecting ≡ true) × (e.log ≡ [] ++ announced (some 1500) 500 3) × (timer_ends any 4 e ≡ e)
rounds_stuck_example = rounds_stuck any socket 4
