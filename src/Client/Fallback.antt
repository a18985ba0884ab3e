-- ===== src/Client/Fallback.antt =====
-- Socket.getTransport and the function `connect` inside Socket.connect: the choice of a transport, and the next
-- ones when it does not connect in time.
pub mod Rounds
use socket_io_java.Common.{
  ◌≤◌, ◌<◌, Option-cases, inl, inr, ℕ, zero, suc, Bool, true, false, Option, none, some, ◌≡◌, refl,
  ap, sym, ◌∙◌, Text, List, [], ◌∷◌, ◌++◌, map, if◌then◌else◌, arith, ◌==◌, text_eq, nat_eq,
  append_assoc, length, All,
}

-- `publish('connecting', name)` and `publish('connect_failed')`.
pub data Notice : Type 0 where
  connecting_over : Text → Notice
  connect_failed : Notice

-- The properties of the socket that the choice reads and sets; `timer` is the connect timer.
pub record Attempt : Type 0 where
  pub connected : Bool
  pub connecting : Bool
  pub try_multiple : Bool
  pub transports : List Text
  pub remaining : Option (List Text)
  pub chosen : Option Text
  pub timer : Bool
  pub raised : Bool
  pub log : List Notice

-- `remaining.splice(0,1)[0] != self.transport.name`, until a name is the transport's or none is left.
abbrev pub remaining_after : Text → List Text → List Text
remaining_after name [] = []
remaining_after name (t ∷ ts) = if t == name then ts else remaining_after name ts

abbrev pub rest_after : Option Text → List Text → Option (List Text)
rest_after (some name) ts = some (remaining_after name ts)
rest_after none [] = some []
rest_after none (t ∷ ts) = none

abbrev pub without_first : List Text → List Text
without_first [] = []
without_first (t ∷ ts) = ts

abbrev pub or_copy : Option (List Text) → List Text → List Text
or_copy none ts = ts
or_copy (some r) ts = r

abbrev pub fail : Attempt → Attempt
fail a = record a { log = a.log ++ connect_failed ∷ [] }

-- Whether a transport of that name exists and passes `check` and, across domains, `xdomainCheck`: the browser
-- decides.
module _ (usable : Text → Bool) where
  -- Socket.getTransport, whose loop ends at an empty name.
  unfoldable pub get_transport : List Text → Option Text
  get_transport [] = none
  get_transport (t ∷ ts) = if t == [] then none else if usable t then some t else get_transport ts

  abbrev pub open_over : Option Text → Attempt → Attempt
  open_over none a = fail (record a { chosen = none })
  open_over (some t) a = record a {
    chosen = some t;
    connecting = true;
    log = a.log ++ connecting_over t ∷ [];
    timer = true;
  }

  -- `connect(transports)`, for a transport that is ready at once.
  unfoldable pub connect_over : List Text → Attempt → Attempt
  unfolding get_transport
  connect_over ts a = open_over (get_transport ts) a

  abbrev pub fall_back : Option (List Text) → Attempt → Attempt
  fall_back none a = record a {
    remaining = some (without_first (or_copy a.remaining a.transports));
    raised = true;
  }
  fall_back (some []) a = fail (record a { remaining = some [] })
  fall_back (some (t ∷ ts)) a = connect_over (t ∷ ts) (record a { remaining = some (t ∷ ts) })

  -- The connect timer.
  unfoldable pub on_connect_timeout : Attempt → Attempt
  unfolding connect_over
  on_connect_timeout a =
      let b = record a { timer = false } in
      if a.connected
      then b
      else if a.try_multiple
      then fall_back (rest_after a.chosen (or_copy a.remaining a.transports))
          (record b { connecting = false })
      else record b { connecting = false }

  -- The connect timer runs out again and again, at most so many times.
  unfoldable pub run_out : ℕ → Attempt → Attempt
  unfolding on_connect_timeout
  run_out zero a = a
  run_out (suc n) a = let b = run_out n (on_connect_timeout a) in if a.timer then b else a

  abbrev pub all_usable : List Text → List Text
  all_usable [] = []
  all_usable (t ∷ ts) = if usable t then t ∷ all_usable ts else all_usable ts
