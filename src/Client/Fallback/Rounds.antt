-- ===== src/Client/Fallback/Rounds.antt =====
-- The rounds of a socket that does not connect: Socket.getTransport and the connect timer, over the transports that remain.
use socket_io_java.Common.{
  ◌≤◌, ◌<◌, Option-cases, inl, inr, ℕ, zero, suc, Bool, true, false, none, some, ◌≡◌, refl, ap, sym,
  ◌∙◌, Text, List, [], ◌∷◌, ◌++◌, map, if◌then◌else◌, arith, ◌==◌, text_eq, nat_eq, append_assoc,
  length, All,
}
use socket_io_java.Client.Fallback.{
  Notice, connecting_over, connect_failed, Attempt, remaining_after, or_copy, fail, get_transport,
  open_over, connect_over, fall_back, on_connect_timeout, run_out, all_usable,
}

module _ (usable : Text → Bool) where
  abbrev pub IsNamed : List Text → Type 0
  IsNamed = All λ t. (t == []) ≡ false

  get_transport-none :
      (ts : List Text) → IsNamed ts → get_transport usable ts ≡ none → all_usable usable ts ≡ []
  unfolding get_transport
  get_transport-none [] h e = refl
  get_transport-none (t ∷ ts) h e = ground (arith, get_transport-none ts h.1)

  get_transport-some :
      (ts : List Text) (t : Text) → get_transport usable ts ≡ some t → usable t ≡ true
  unfolding get_transport
  get_transport-some [] t e = ground arith
  get_transport-some (x ∷ ts) t e = ground (arith, get_transport-some ts t)

  -- The usable names of a list are the one that is chosen, then those of the names after it.
  all_usable_split :
      (ts : List Text) (t : Text)
      → IsNamed ts
      → get_transport usable ts ≡ some t
      → all_usable usable ts ≡ t ∷ all_usable usable (remaining_after t ts)
  unfolding get_transport
  all_usable_split [] t h e = ground arith
  all_usable_split (x ∷ ts) t h e =
      ground (arith, get_transport-some ts t, text_eq.beq_iff x t, all_usable_split ts t h.1)

  remaining_after-le : (ts : List Text) (t : Text) → length (remaining_after t ts) ≤ length ts
  remaining_after-le [] t = ground arith
  remaining_after-le (x ∷ ts) t = ground (arith, remaining_after-le ts t)

  length-remaining_after :
      (ts : List Text) (t : Text)
      → get_transport usable ts ≡ some t
      → length (remaining_after t ts) < length ts
  unfolding get_transport
  length-remaining_after [] t e = ground arith
  length-remaining_after (x ∷ ts) t e = ground (arith, remaining_after-le ts t)

  remaining_after-IsNamed :
      (ts : List Text) (t : Text) → IsNamed ts → IsNamed (remaining_after t ts)
  remaining_after-IsNamed [] t h = h
  remaining_after-IsNamed (x ∷ ts) t h = named (x == t) (remaining_after-IsNamed ts t h.1)
    where
      named :
          (b : Bool)
          → IsNamed (remaining_after t ts)
          → IsNamed (if b then ts else remaining_after t ts)
      named true k = h.1
      named false k = k

  run_out_still : (n : ℕ) (a : Attempt) → a.timer ≡ false → run_out usable n a ≡ a
  unfolding run_out
  run_out_still zero a h = refl
  run_out_still (suc n) a h = still a.timer (run_out usable n (on_connect_timeout usable a)) h
    where
      still : (b : Bool) (x : Attempt) → b ≡ false → (if b then x else a) ≡ a
      still b x e = simp e

  connect_over-none :
      (ts : List Text) (a : Attempt)
      → get_transport usable ts ≡ none
      → connect_over usable ts a ≡ fail (record a { chosen = none })
  unfolding connect_over
  connect_over-none ts a e = ap (λ o. open_over usable o a) e

  connect_over-some :
      (ts : List Text) (a : Attempt) (t : Text)
      → get_transport usable ts ≡ some t
      → connect_over usable ts a ≡ open_over usable (some t) a
  unfolding connect_over
  connect_over-some ts a t e = ap (λ o. open_over usable o a) e

  timeout_falls_back :
      (ts : List Text) (a : Attempt) (t : Text)
      → or_copy a.remaining a.transports ≡ ts
      → a.connected ≡ false
      → a.try_multiple ≡ true
      → on_connect_timeout usable (open_over usable (some t) a)
        ≡ fall_back usable
            (some (remaining_after t ts))
            (record (open_over usable (some t) a) { timer = false; connecting = false })
  unfolding on_connect_timeout
  timeout_falls_back ts a t l c m =
      branch a.connected a.try_multiple _ _ _ c m
      ∙ ap
          (λ r.
            fall_back usable (some (remaining_after t r))
              (record (open_over usable (some t) a) { timer = false; connecting = false }))
          l
    where
      branch :
          (b k : Bool) (x y z : Attempt)
          → b ≡ false
          → k ≡ true
          → (if b then x else if k then y else z) ≡ y
      branch b k x y z p q = simp (p, q)

  -- After `before`, the usable names were tried in order, then the failure was published, and no timer runs.
  abbrev pub HasTried : List Text → List Notice → Attempt → Type 0
  HasTried ts before b =
      (b.log ≡ before ++ (map connecting_over (all_usable usable ts) ++ connect_failed ∷ []))
      × (b.timer ≡ false)

  tried_none :
      (n : ℕ) (ts : List Text) (a : Attempt)
      → IsNamed ts
      → a.timer ≡ false
      → get_transport usable ts ≡ none
      → HasTried ts a.log (run_out usable n (connect_over usable ts a))
  tried_none n ts a h o e =
      let b = fail (record a { chosen = none }) in
      let q = ap (run_out usable n) (connect_over-none ts a e) ∙ run_out_still n b o in
      (
        ap (λ x. x.log) q
            ∙ ap (λ u. a.log ++ (map connecting_over u ++ connect_failed ∷ []))
                (sym (get_transport-none ts h e)),
        ap (λ x. x.timer) q ∙ o,
      )

  -- The next round, given the theorem for it.
  tried_next :
      (n : ℕ) (r : List Text) (d : Attempt)
      → d.timer ≡ false
      → HasTried r d.log
          (run_out usable n (connect_over usable r (record d { remaining = some r })))
      → HasTried r d.log (run_out usable n (fall_back usable (some r) d))
  tried_next n [] d o next =
      let q = run_out_still n (fail (record d { remaining = some [] })) o in
      (ap (λ x. x.log) q, ap (λ x. x.timer) q ∙ o)
  tried_next n (y ∷ ys) d o next = next

  tried_some :
      (n : ℕ) (ts : List Text) (a : Attempt) (t : Text)
      → IsNamed ts
      → or_copy a.remaining a.transports ≡ ts
      → a.connected ≡ false
      → a.try_multiple ≡ true
      → get_transport usable ts ≡ some t
      → HasTried (remaining_after t ts) (a.log ++ connecting_over t ∷ []) (
          run_out usable n (
            fall_back usable
              (some (remaining_after t ts))
              (record (open_over usable (some t) a) { timer = false; connecting = false })))
      → HasTried ts a.log (run_out usable (suc n) (connect_over usable ts a))
  unfolding run_out
  tried_some n ts a t h l c m e next =
      let q =
        ap (run_out usable (suc n)) (connect_over-some ts a t e)
        ∙ ap (run_out usable n) (timeout_falls_back ts a t l c m) in
      (
        ap (λ x. x.log) q
            ∙ next.0
            ∙ append_assoc a.log (connecting_over t ∷ []) (
                map connecting_over (all_usable usable (remaining_after t ts))
                ++ connect_failed ∷ [])
            ∙ ap (λ u. a.log ++ (map connecting_over u ++ connect_failed ∷ []))
                (sym (all_usable_split ts t h e)),
        ap (λ x. x.timer) q ∙ next.1,
      )

  none_left : (ts : List Text) → length ts ≤ 0 → get_transport usable ts ≡ none
  unfolding get_transport
  none_left [] p = refl
  none_left (x ∷ xs) p = ground (arith, p)

  -- A socket that does not connect tries the usable ones of its transports in order, each once, then publishes
  -- 'connect_failed' once and stops: as many runs of the connect timer as there are transports suffice. The
  -- option 'try multiple transports' is set, no name is empty, and no earlier choice has left other names.
  pub run_out-connect_over :
      (n : ℕ) (ts : List Text) (a : Attempt)
      → IsNamed ts
      → length ts ≤ n
      → or_copy a.remaining a.transports ≡ ts
      → a.connected ≡ false
      → a.try_multiple ≡ true
      → a.timer ≡ false
      → HasTried ts a.log (run_out usable n (connect_over usable ts a))
  run_out-connect_over zero ts a h le l c m o = tried_none zero ts a h o (none_left ts le)
  run_out-connect_over (suc n) ts a h le l c m o =
      elim (Option-cases (get_transport usable ts))
        as (λ _. HasTried ts a.log (run_out usable (suc n) (connect_over usable ts a))) [
          | inl e ↦ tried_none (suc n) ts a h o e
          | inr (t, e) ↦
              (let r = remaining_after t ts in
                let d = record (open_over usable (some t) a) {
                  timer = false;
                  connecting = false;
                } in
                tried_some n ts a t h l c m e (
                  tried_next n r d refl (
                    run_out-connect_over n r (record d { remaining = some r })
                      (remaining_after-IsNamed ts t h)
                      (omega (arith, le, length-remaining_after ts t e)) refl c m refl)))
        ]
