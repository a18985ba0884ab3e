-- ===== src/Client/Backoff.antt =====
-- Socket.reconnect: the function maybeReconnect, its timers and its listeners.
pub mod Bounds
pub mod Attempts
use socket_io_java.Common.{
  ℕ, zero, suc, ◌*◌, Bool, true, false, not, ◌&&◌, Option, none, some, Text, List, [], ◌∷◌, ◌++◌,
  if◌then◌else◌, eqb, ltb, leb,
}
use socket_io_java.Client.Fallback.{get_transport}

-- What maybeReconnect publishes: a new attempt with its delay and number, the end of the reconnection over a transport
-- after so many attempts, or its failure.
pub data Report : Type 0 where
  attempts_again : ℕ → ℕ → Report
  is_back : Option Text → ℕ → Report
  gives_up : Report

-- The properties of a socket that a reconnection reads and sets. A timer has a number and a time; `timer` is
-- `reconnectionTimer`, `saved` is the variable tryMultiple, and a limit of none is Infinity. Properties that `reset` deletes are 0, false
-- or none here: `reconnect` sets them before they are read. `asked` counts the handshakes that were begun.
-- `connect_timeout` says whether the option 'connect timeout' is set, and `connect_timers` counts the timers that were set
-- for it and run.
pub record Backoff : Type 0 where
  pub max_attempts : ℕ
  pub limit : Option ℕ
  pub first_delay : ℕ
  pub try_multiple : Bool
  pub saved : Bool
  pub connected : Bool
  pub connecting : Bool
  pub reconnecting : Bool
  pub attempts : ℕ
  pub delay : ℕ
  pub redo : Bool
  pub transports : List Text
  pub transport : Option Text
  pub timers : List (ℕ × ℕ)
  pub next : ℕ
  pub timer : Option ℕ
  pub on_connect : Bool
  pub on_failed : Bool
  pub connect_timeout : Bool
  pub connect_timers : ℕ
  pub asked : ℕ
  pub log : List Report

abbrev pub without_timer : ℕ → List (ℕ × ℕ) → List (ℕ × ℕ)
without_timer id [] = []
without_timer id ((i, t) ∷ ts) =
    let rest = without_timer id ts in if eqb i id then rest else (i, t) ∷ rest

abbrev pub has_timer : ℕ → List (ℕ × ℕ) → Bool
has_timer id [] = false
has_timer id ((i, t) ∷ ts) = let rest = has_timer id ts in if eqb i id then true else rest

abbrev clear : Option ℕ → List (ℕ × ℕ) → List (ℕ × ℕ)
clear none ts = ts
clear (some id) ts = without_timer id ts

-- `self.reconnectionTimer = setTimeout(maybeReconnect, time)`.
abbrev pub wait : ℕ → Backoff → Backoff
wait time b = record b {
  timers = (b.next, time) ∷ b.timers;
  timer = some b.next;
  next = suc b.next;
}

abbrev pub report : Report → Backoff → Backoff
report r b = record b { log = b.log ++ r ∷ [] }

abbrev pub less_one : ℕ → ℕ
less_one zero = 0
less_one (suc n) = n

-- Socket.connect.
unfoldable pub begin : Backoff → Backoff
begin b = if b.connecting then b else record b { connecting = true; asked = suc b.asked }

-- `reset`, less the packets to the namespaces.
unfoldable pub stop : Backoff → Backoff
stop b =
    let r = if b.connected then report (is_back b.transport b.attempts) b else b in
    record r {
      timers = clear r.timer r.timers;
      on_connect = false;
      on_failed = false;
      reconnecting = false;
      attempts = 0;
      delay = 0;
      timer = none;
      redo = false;
      try_multiple = r.saved;
    }

abbrev below : ℕ → Option ℕ → Bool
below d none = true
below d (some l) = ltb d l

-- `if (self.reconnectionDelay < limit) self.reconnectionDelay *= 2`.
abbrev pub longer : Option ℕ → ℕ → ℕ
longer l d = if below d l then d * 2 else d

-- An attempt within the maximum.
unfoldable pub try_again : Backoff → Backoff
unfolding begin
try_again b =
    let c = begin (record b { delay = longer b.limit b.delay }) in
    wait c.delay (report (attempts_again c.delay c.attempts) c)

module _ (usable : Text → Bool) where
  -- The last attempt, with every transport.
  unfoldable pub redo_transports : Backoff → Backoff
  unfolding begin get_transport
  redo_transports b = begin (record b {
    on_failed = true;
    try_multiple = true;
    transport = get_transport usable b.transports;
    redo = true;
  })

  unfoldable pub maybe_reconnect : Backoff → Backoff
  unfolding stop redo_transports try_again
  maybe_reconnect b =
      let c = record b { attempts = suc b.attempts } in
      if not b.reconnecting
      then b
      else if b.connected
      then stop b
      else if b.connecting
      then wait 1000 b
      else if leb b.max_attempts b.attempts
      then (if not b.redo then redo_transports c else stop (report gives_up c))
      else try_again c

  -- A timer ends.
  unfoldable pub timer_ends : ℕ → Backoff → Backoff
  unfolding maybe_reconnect
  timer_ends id b =
      if has_timer id b.timers
      then maybe_reconnect (record b { timers = without_timer id b.timers })
      else b

  -- 'connect' is published to the socket that is connected now; the newest connect timer is cleared.
  unfoldable pub connects : Backoff → Backoff
  unfolding maybe_reconnect
  connects b =
      let c = record b {
        connected = true;
        connecting = false;
        connect_timers = less_one b.connect_timers;
      } in
      if c.on_connect then maybe_reconnect c else c

  -- A connect timer that runs ends, and no transport remains: unless the socket is connected, `connecting` is set to
  -- false, and 'connect_failed' is published if several transports may be tried.
  unfoldable pub times_out : Backoff → Backoff
  unfolding maybe_reconnect
  times_out b =
      let c = record b { connect_timers = less_one b.connect_timers } in
      let d = record c { connecting = false } in
      if eqb b.connect_timers 0
      then b
      else if c.connected
      then c
      else if d.try_multiple && d.on_failed
      then maybe_reconnect d
      else d

  -- 'connect_failed' is published because no transport can be used: the socket stays connecting.
  unfoldable pub finds_none : Backoff → Backoff
  unfolding maybe_reconnect
  finds_none b =
      let c = record b { transport = none } in if c.on_failed then maybe_reconnect c else c

  -- The handshake is answered, and the answer leaves the socket its transports: the first that can be used is opened, and the
  -- connect timer starts if there is a timeout for it.
  unfoldable pub is_answered : Backoff → Backoff
  unfolding finds_none get_transport
  is_answered b = elim (get_transport usable b.transports) [
    | none ↦ finds_none b
    | some t ↦ record b {
      transport = some t;
      connecting = true;
      connect_timers = (if b.connect_timeout then suc b.connect_timers else b.connect_timers);
    }
  ]

-- The handshake ends with an error.
unfoldable pub handshake_fails : Backoff → Backoff
handshake_fails b = record b { connecting = false }

-- Socket.reconnect.
unfoldable pub reconnect : Backoff → Backoff
reconnect b =
    let c = record b {
      reconnecting = true;
      attempts = 0;
      delay = b.first_delay;
      saved = b.try_multiple;
      try_multiple = false;
    } in
    record (wait c.delay c) { on_connect = true }
