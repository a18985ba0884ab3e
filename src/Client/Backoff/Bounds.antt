-- ===== src/Client/Backoff/Bounds.antt =====
-- The delays and the numbers of attempts that a reconnection announces.
use socket_io_java.Common.{
  ℕ, suc, ◌*◌, ◌<◌, ◌≤◌, Bool, true, false, not, ◌&&◌, ◌≡◌, refl, ◌⊎◌, inl, arith, Option, none,
  some, Text, List, [], ◌∷◌, if◌then◌else◌, All, All-append, leb, eqb, Option-cases, inr,
}
use socket_io_java.Client.Fallback.{get_transport}
use socket_io_java.Client.Backoff.{
  Report, attempts_again, is_back, gives_up, Backoff, report, begin, stop, longer, try_again,
  redo_transports, maybe_reconnect, timer_ends, connects, times_out, finds_none, is_answered,
  handshake_fails, reconnect, has_timer, without_timer, less_one,
}

-- What the page and the server do to a reconnection.
pub data Step : Type 0 where
  timer_ends_with : ℕ → Step
  connects_with : Step
  times_out_with : Step
  finds_none_with : Step
  is_answered_with : Step
  handshake_fails_with : Step
  reconnects : Step

abbrev pub step : (Text → Bool) → Step → Backoff → Backoff
step usable (timer_ends_with id) b = timer_ends usable id b
step usable connects_with b = connects usable b
step usable times_out_with b = times_out usable b
step usable finds_none_with b = finds_none usable b
step usable is_answered_with b = is_answered usable b
step usable handshake_fails_with b = handshake_fails b
step usable reconnects b = reconnect b

abbrev pub steps : (Text → Bool) → List Step → Backoff → Backoff
steps usable [] b = b
steps usable (e ∷ es) b = steps usable es (step usable e b)

-- A delay is the first one at most, or less than twice the limit.
abbrev pub InLimit : Option ℕ → ℕ → ℕ → Type 0
InLimit none first d = Unit {0}
InLimit (some l) first d = (d ≤ first) ⊎ (d < l * 2)

abbrev pub IsInBounds : Option ℕ → ℕ → ℕ → Report → Type 0
IsInBounds l first max (attempts_again d n) = (n ≤ max) × InLimit l first d
IsInBounds l first max (is_back t n) = Unit {0}
IsInBounds l first max gives_up = Unit {0}

-- With the options of a socket: its delay and all that it reported are in bounds.
abbrev pub IsBounded : Option ℕ → ℕ → ℕ → Backoff → Type 0
IsBounded l first max b =
    (b.limit ≡ l)
    × (b.first_delay ≡ first)
    × (b.max_attempts ≡ max)
    × InLimit l first b.delay
    × All (IsInBounds l first max) b.log

InLimit-longer : (l : Option ℕ) (first d : ℕ) → InLimit l first d → InLimit l first (longer l d)
InLimit-longer none first d h = tt
InLimit-longer (some l) first d h = grind arith

InLimit-zero : (l : Option ℕ) (first : ℕ) → InLimit l first 0
InLimit-zero none first = tt
InLimit-zero (some l) first = inl (omega arith)

InLimit-first : (l : Option ℕ) (first : ℕ) → InLimit l first first
InLimit-first none first = tt
InLimit-first (some l) first = inl (omega arith)

module _ (l : Option ℕ) (first max : ℕ) where
  abbrev Holds : Backoff → Type 0
  Holds = IsBounded l first max

  either : (c : Bool) (a b : Backoff) → Holds a → Holds b → Holds (if c then a else b)
  either true a b h k = h
  either false a b h k = k

  -- Where a test is needed.
  under : (c : Bool) (a b : Backoff) → (c ≡ false → Holds a) → Holds b → Holds (if c then b else a)
  under true a b h k = k
  under false a b h k = h refl

  IsBounded-report :
      (r : Report) (b : Backoff) → IsInBounds l first max r → Holds b → Holds (report r b)
  IsBounded-report r b i (e, f, g, d, k) =
      (e, f, g, d, All-append (IsInBounds l first max) b.log (r ∷ []) k (i, tt))

  IsBounded-begin : (b : Backoff) → Holds b → Holds (begin b)
  unfolding begin
  IsBounded-begin b h = either b.connecting b _ h h

  begin-attempts : (b : Backoff) → (begin b).attempts ≡ b.attempts
  unfolding begin
  begin-attempts b = ground arith

  IsBounded-stop : (b : Backoff) → Holds b → Holds (stop b)
  unfolding stop
  IsBounded-stop b h =
      let (e, f, g, d, k) = either b.connected _ b (IsBounded-report _ b tt h) h in
      (e, f, g, InLimit-zero l first, k)

  IsBounded-try_again : (b : Backoff) → b.attempts ≤ max → Holds b → Holds (try_again b)
  unfolding try_again
  IsBounded-try_again b i (e, f, g, d, k) =
      let c = record b { delay = longer b.limit b.delay } in
      let h = IsBounded-begin c (e, f, g, rw e (InLimit-longer l first b.delay d), k) in
      IsBounded-report (attempts_again (begin c).delay (begin c).attempts) (begin c)
        (omega (arith, begin-attempts c, i), h.3) h

  IsBounded-maybe_reconnect :
      (usable : Text → Bool) (b : Backoff) → Holds b → Holds (maybe_reconnect usable b)
  unfolding maybe_reconnect redo_transports
  IsBounded-maybe_reconnect usable b h =
      let c = record b { attempts = suc b.attempts } in
      either (not b.reconnecting) b _ h (
        either b.connected _ _ (IsBounded-stop b h) (
          either b.connecting _ _ h (
            under (leb b.max_attempts b.attempts) _ _
              (λ e. IsBounded-try_again c (omega (arith, more e, h.2)) h)
              (either (not b.redo) _ _ (IsBounded-begin _ h)
                (IsBounded-stop _ (IsBounded-report gives_up c tt h))))))
    where
      more : leb b.max_attempts b.attempts ≡ false → b.attempts < b.max_attempts
      more e = ground arith

IsBounded-finds_none :
    (usable : Text → Bool) (l : Option ℕ) (first max : ℕ) (b : Backoff)
    → IsBounded l first max b
    → IsBounded l first max (finds_none usable b)
unfolding finds_none
IsBounded-finds_none usable l first max b h =
    let c = record b { transport = none } in
    either l first max b.on_failed (maybe_reconnect usable c) c
      (IsBounded-maybe_reconnect l first max usable c h) h

IsBounded-step :
    (usable : Text → Bool) (l : Option ℕ) (first max : ℕ) (e : Step) (b : Backoff)
    → IsBounded l first max b
    → IsBounded l first max (step usable e b)
unfolding timer_ends connects times_out is_answered finds_none handshake_fails reconnect
IsBounded-step usable l first max (timer_ends_with id) b h =
    let c = record b { timers = without_timer id b.timers } in
    either l first max (has_timer id b.timers) (maybe_reconnect usable c) b
      (IsBounded-maybe_reconnect l first max usable c h) h
IsBounded-step usable l first max connects_with b h =
    let c = record b {
      connected = true;
      connecting = false;
      connect_timers = less_one b.connect_timers;
    } in
    either l first max b.on_connect (maybe_reconnect usable c) c
      (IsBounded-maybe_reconnect l first max usable c h) h
IsBounded-step usable l first max times_out_with b h =
    let d = record b { connect_timers = less_one b.connect_timers } in
    let c = record d { connecting = false } in
    let e = if b.try_multiple && b.on_failed then maybe_reconnect usable c else c in
    either l first max (eqb b.connect_timers 0) b (if b.connected then d else e) h (
      either l first max b.connected d e h (
        either l first max (b.try_multiple && b.on_failed) (maybe_reconnect usable c) c
          (IsBounded-maybe_reconnect l first max usable c h) h))
IsBounded-step usable l first max finds_none_with b h = IsBounded-finds_none usable l first max b h
IsBounded-step usable l first max is_answered_with b h =
    elim (Option-cases (get_transport usable b.transports)) [
      | inl e ↦ rw (e, is_answered) (IsBounded-finds_none usable l first max b h)
      | inr (t, e) ↦ rw (e, is_answered) h
    ]
IsBounded-step usable l first max handshake_fails_with b h = h
IsBounded-step usable l first max reconnects b (e, f, g, d, k) =
    (e, f, g, rw f (InLimit-first l first), k)

-- Whatever happens to a socket, each attempt that it announces is numbered within the maximum, and its delay is the
-- first one at most or less than twice the limit, if that was so before: no doubling goes further.
pub steps-IsBounded :
    (usable : Text → Bool) (l : Option ℕ) (first max : ℕ) (es : List Step) (b : Backoff)
    → IsBounded l first max b
    → IsBounded l first max (steps usable es b)
steps-IsBounded usable l first max [] b h = h
steps-IsBounded usable l first max (e ∷ es) b h =
    steps-IsBounded usable l first max es (step usable e b)
      (IsBounded-step usable l first max e b h)
