-- ===== src/Client/Backoff/Attempts.antt =====
-- A reconnection whose attempts all fail, from its beginning to its end.
use socket_io_java.Common.{
  ℕ, zero, suc, ◌*◌, ◌<◌, ◌≤◌, Bool, true, false, ◌≡◌, refl, sym, ap, ◌∙◌, arith, Option, none,
  some, Text, List, [], ◌∷◌, ◌++◌, append_assoc, append-nil, leb, eqb,
}
use Prim.Native.Nat.{◌^◌}
use socket_io_java.Client.Fallback.{get_transport}
use socket_io_java.Client.Backoff.{
  Report, attempts_again, Backoff, begin, longer, try_again, redo_transports, maybe_reconnect,
  timer_ends, handshake_fails, reconnect,
}

-- A socket that has lost its connection, with no timer of an earlier reconnection.
abbrev pub lost : Backoff → Backoff
lost b = record b {
  connected = false;
  connecting = false;
  timers = [];
  redo = false;
  on_failed = false;
  connect_timers = 0;
}

abbrev delay_after : Option ℕ → ℕ → ℕ → ℕ
delay_after l first zero = first
delay_after l first (suc k) = longer l (delay_after l first k)

abbrev plus : ℕ → ℕ → ℕ
plus zero n = n
plus (suc k) n = suc (plus k n)

-- What so many attempts report.
abbrev pub announced : Option ℕ → ℕ → ℕ → List Report
announced l first zero = []
announced l first (suc k) =
    announced l first k ++ attempts_again (delay_after l first (suc k)) (suc k) ∷ []

module _ (usable : Text → Bool) where
  abbrev fire_at : Option ℕ → Backoff → Backoff
  fire_at none b = b
  fire_at (some id) b = timer_ends usable id b

  -- The timer of the reconnection ends.
  abbrev pub fire : Backoff → Backoff
  fire b = fire_at b.timer b

  -- So many times, the timer ends and the handshake that it begins fails.
  abbrev pub rounds : ℕ → Backoff → Backoff
  rounds zero b = b
  rounds (suc n) b = handshake_fails (fire (rounds n b))

  -- The socket after so many failed attempts.
  abbrev after : ℕ → Backoff → Backoff
  after k b =
      let d = delay_after b.limit b.first_delay k in
      record (lost b) {
        reconnecting = true;
        attempts = k;
        delay = d;
        saved = b.try_multiple;
        try_multiple = false;
        timers = (plus k b.next, d) ∷ [];
        timer = some (plus k b.next);
        next = suc (plus k b.next);
        on_connect = true;
        asked = plus k b.asked;
        log = b.log ++ announced b.limit b.first_delay k;
      }

  eqb_self : (n : ℕ) → eqb n n ≡ true
  eqb_self n = ground arith

  round_lem :
      (k : ℕ) (b : Backoff)
      → k < b.max_attempts
      → handshake_fails (fire (after k b)) ≡ after (suc k) b
  unfolding timer_ends maybe_reconnect handshake_fails try_again begin
  round_lem k b h =
      rw (eqb_self (plus k b.next), over)
        (ap (λ l. record (after (suc k) b) { log = l })
          (append_assoc b.log (announced b.limit b.first_delay k) _))
    where
      over : leb b.max_attempts k ≡ false
      over = ground arith

  rounds_lem :
      (n : ℕ) (b : Backoff) → n ≤ b.max_attempts → rounds n (reconnect (lost b)) ≡ after n b
  unfolding reconnect
  rounds_lem zero b h = ap (λ l. record (after zero b) { log = l }) (sym (append-nil b.log))
  rounds_lem (suc n) b h =
      ap (λ c. handshake_fails (fire c)) (rounds_lem n b (omega arith))
      ∙ round_lem n b (omega arith)

  -- The socket during its last attempt.
  abbrev redone : Backoff → Backoff
  redone b =
      let k = b.max_attempts in
      let c = after k b in
      record c {
        attempts = suc k;
        timers = [];
        on_failed = true;
        try_multiple = true;
        transport = get_transport usable b.transports;
        redo = true;
        connecting = true;
        asked = suc c.asked;
      }

  last_lem : (b : Backoff) → fire (rounds b.max_attempts (reconnect (lost b))) ≡ redone b
  unfolding timer_ends maybe_reconnect redo_transports begin
  last_lem b =
      ap fire (rounds_lem b.max_attempts b (omega arith))
      ∙ rw (eqb_self (plus b.max_attempts b.next), over) refl
    where
      over : leb b.max_attempts b.max_attempts ≡ true
      over = ground arith

  -- If the handshake of the last attempt is answered with an error instead, the socket stays in its reconnection for good: it has no timer,
  -- has published no 'reconnect_failed', and begins no other handshake.
  pub rounds_stuck :
      (b : Backoff) (id : ℕ)
      → let e = handshake_fails (fire (rounds b.max_attempts (reconnect (lost b)))) in
        (e.reconnecting ≡ true)
        × (e.log ≡ b.log ++ announced b.limit b.first_delay b.max_attempts)
        × (timer_ends usable id e ≡ e)
  unfolding handshake_fails timer_ends
  rounds_stuck b id = rw (last_lem b) (refl, refl, refl)

  delay_after-none : (first k : ℕ) → delay_after none first k ≡ first * 2 ^ k
  delay_after-none first zero = grind arith
  delay_after-none first (suc k) = grind (arith, delay_after-none first k)

  -- Without a limit, the delay after each failed attempt is the first delay times a power of two.
  rounds_doubled :
      (n : ℕ) (b : Backoff)
      → n ≤ b.max_attempts
      → b.limit ≡ none
      → (rounds n (reconnect (lost b))).delay ≡ b.first_delay * 2 ^ n
  rounds_doubled n b h l = rw (rounds_lem n b h, l) (delay_after-none b.first_delay n)
