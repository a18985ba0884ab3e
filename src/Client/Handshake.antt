-- ===== src/Client/Handshake.antt =====
-- Socket.handshake and Socket.connect: what the answer of the server says, and what the socket does with it.
use socket_io_java.Common.{
  ℕ, zero, suc, ◌*◌, Bool, true, false, Option, none, some, ◌≡◌, refl, ap, ◌∙◌, arith, join, nat_eq,
  Text, List, [], ◌∷◌, ◌++◌, decimal, if◌then◌else◌, ◌==◌, eqb, text_eq, All, decimal-IsDigit,
  IsDigit,
}
use socket_io_java.Util.Query.{split}
use socket_io_java.Util.Intersect.{intersect}
use socket_io_java.Parser.Payload.{to_number, to_number-decimal}
use socket_io_java.Client.Fallback.{Attempt, connect_failed, get_transport, connect_over}

-- What `connect` takes from the pieces of the answer; a timeout that is no number is NaN, which is `none`.
pub record Terms : Type 0 where
  pub sessionid : Option Text
  pub heartbeat_timeout : Option ℕ
  pub close_timeout : Option ℕ
  pub transports : List Text

abbrev times_1000 : Option ℕ → Option ℕ
times_1000 none = none
times_1000 (some n) = some (n * 1000)

-- `piece * 1000`.
abbrev milliseconds : Option Text → Option ℕ
milliseconds none = none
milliseconds (some t) = times_1000 (to_number t)

-- `transports ? intersect(transports.split(','), options.transports) : options.transports`.
abbrev shared_transports : Option Text → List Text → List Text
shared_transports none own = own
shared_transports (some t) own = if t == [] then own else intersect (split b',' t) own

abbrev piece : List Text → ℕ → Option Text
piece [] i = none
piece (t ∷ ts) zero = some t
piece (t ∷ ts) (suc i) = piece ts i

abbrev terms_of : List Text → List Text → Terms
terms_of own ps = record {
  sessionid = piece ps 0;
  heartbeat_timeout = milliseconds (piece ps 1);
  close_timeout = milliseconds (piece ps 2);
  transports = shared_transports (piece ps 3) own;
}

-- `fn.apply(null, data.split(':'))`.
unfoldable pub agree : List Text → Text → Terms
unfolding split to_number intersect
agree own text = terms_of own (split b':' text)

-- A socket between `connect` and its transport: `asked` counts the handshakes that were begun, `errors` the errors
-- that were published.
pub record Link : Type 0 where
  pub attempt : Attempt
  pub terms : Option Terms
  pub heartbeat_timer : Bool
  pub asked : ℕ
  pub errors : List Text

-- Socket.connect.
unfoldable pub connect : Link → Link
connect l =
    if l.attempt.connecting
    then l
    else record l { attempt = record l.attempt { connecting = true }; asked = suc l.asked }

module _ (usable : Text → Bool) where
  -- The handshake ends with status 200, or its script calls back.
  unfoldable pub on_handshake : List Text → Text → Link → Link
  unfolding agree connect_over
  on_handshake own text l =
      let t = agree own text in
      record l {
        terms = some t;
        heartbeat_timer = true;
        attempt = connect_over usable t.transports (record l.attempt { transports = t.transports });
      }

-- It ends with another status.
unfoldable pub on_handshake_error : Bool → Text → Link → Link
on_handshake_error reconnecting text l =
    let m = record l { attempt = record l.attempt { connecting = false } } in
    if reconnecting then m else record m { errors = m.errors ++ text ∷ [] }

-- `complete` is called with an Error.
unfoldable pub on_complete_error : Text → Link → Link
on_complete_error message l = record l {
  attempt = record l.attempt { connecting = false };
  errors = l.errors ++ message ∷ [];
}

-- No code unit of a text is the separator.
abbrev pub Lacks : ℕ → Text → Type 0
Lacks c = All λ x. eqb x c ≡ false

split-Lacks : (c : ℕ) (t : Text) → Lacks c t → split c t ≡ t ∷ []
unfolding split
split-Lacks c [] h = refl
split-Lacks c (x ∷ t) h = rw h.0 (rw (split-Lacks c t h.1))

split-append : (c : ℕ) (t u : Text) → Lacks c t → split c (t ++ (c ∷ u)) ≡ t ∷ split c u
unfolding split
split-append c [] u h = ground arith
split-append c (x ∷ t) u h = rw h.0 (rw (split-append c t u h.1))

-- Splitting what was joined gives the pieces back, if none has the separator and there is at least one.
pub split-join :
    (c : ℕ) (t : Text) (ts : List Text)
    → All (Lacks c) (t ∷ ts)
    → split c (join (c ∷ []) (t ∷ ts)) ≡ t ∷ ts
split-join c t [] h = split-Lacks c t h.0
split-join c t (u ∷ ts) h =
    split-append c t (join (c ∷ []) (u ∷ ts)) h.0 ∙ ap (◌∷◌ t) (split-join c u ts h.1)

Lacks-digits : (t : Text) → All IsDigit t → Lacks b':' t
Lacks-digits [] h = h
Lacks-digits (c ∷ t) h = (ground (arith, h.0), Lacks-digits t h.1)

terms_of-pieces :
    (own ts : List Text) (sid names : Text) (heartbeat close : ℕ)
    → (names == []) ≡ false
    → split b',' names ≡ ts
    → terms_of own (sid ∷ decimal heartbeat ∷ decimal close ∷ names ∷ []) ≡ record {
      sessionid = some sid;
      heartbeat_timeout = some (heartbeat * 1000);
      close_timeout = some (close * 1000);
      transports = intersect ts own;
    }
unfolding to_number intersect
terms_of-pieces own ts sid names heartbeat close e s =
    rw (to_number-decimal heartbeat, to_number-decimal close, e, s)

join-nonempty :
    (c : ℕ) (t : Text) (ts : List Text) → (t == []) ≡ false → (join (c ∷ []) (t ∷ ts) == []) ≡ false
join-nonempty c t [] e = e
join-nonempty c [] (u ∷ ts) e = absurd (cc e)
join-nonempty c (x ∷ t) (u ∷ ts) e = refl

-- The socket reads back what a server writes: the session, both timeouts from seconds to milliseconds, and the transports that
-- the server and the socket share, if no part has a colon, and no name of a transport a comma.
pub agree-join :
    (own : List Text) (sid : Text) (heartbeat close : ℕ) (t : Text) (ts : List Text)
    → Lacks b':' sid
    → Lacks b':' (join (b',' ∷ []) (t ∷ ts))
    → All (Lacks b',') (t ∷ ts)
    → (t == []) ≡ false
    → agree own (
        join (b':' ∷ []) (sid ∷ decimal heartbeat ∷ decimal close ∷ join (b',' ∷ []) (t ∷ ts) ∷ []))
      ≡ record {
        sessionid = some sid;
        heartbeat_timeout = some (heartbeat * 1000);
        close_timeout = some (close * 1000);
        transports = intersect (t ∷ ts) own;
      }
unfolding agree
agree-join own sid heartbeat close t ts hs hj ht hn =
    ap (terms_of own) (
      split-join b':' sid (decimal heartbeat ∷ decimal close ∷ names ∷ [])
        (hs, (digits heartbeat, (digits close, (hj, tt)))))
    ∙ terms_of-pieces own (t ∷ ts) sid names heartbeat close (join-nonempty b',' t ts hn)
        (split-join b',' t ts ht)
  where
    names : Text
    names = join (b',' ∷ []) (t ∷ ts)

    digits : (n : ℕ) → Lacks b':' (decimal n)
    digits n = Lacks-digits (decimal n) (decimal-IsDigit n)

get_transport-none :
    (usable : Text → Bool) (ts : List Text)
    → All (λ t. usable t ≡ false) ts
    → get_transport usable ts ≡ none
unfolding get_transport
get_transport-none usable [] h = refl
get_transport-none usable (t ∷ ts) h = ground (arith, h.0, get_transport-none usable ts h.1)

stuck_lem :
    (usable : Text → Bool) (own : List Text) (text : Text) (l : Link)
    → get_transport usable (agree own text).transports ≡ none
    → l.attempt.connecting ≡ false
    → let m = on_handshake usable own text (connect l) in
      (m.attempt.log ≡ l.attempt.log ++ connect_failed ∷ [])
      × (m.attempt.chosen ≡ none)
      × (m.attempt.connecting ≡ true)
      × (m.asked ≡ suc l.asked)
      × (connect m ≡ m)
unfolding connect on_handshake connect_over
stuck_lem usable own text l e c = rw (c, e) (refl, refl, refl, refl, refl)

-- A socket that connects, and a server that offers transports of which none that the socket also has can be used: the socket
-- publishes 'connect_failed', has no transport, and is still connecting, so that every later call of connect does
-- nothing. The text of the server is as it is written with a session, two timeouts and the names, of which no part has
-- a colon, no name a comma, and the first name is not empty.
pub connect_stuck :
    (usable : Text → Bool) (own : List Text) (sid : Text) (heartbeat close : ℕ) (t : Text)
    (ts : List Text) (l : Link)
    → Lacks b':' sid
    → Lacks b':' (join (b',' ∷ []) (t ∷ ts))
    → All (Lacks b',') (t ∷ ts)
    → (t == []) ≡ false
    → All (λ u. usable u ≡ false) (intersect (t ∷ ts) own)
    → l.attempt.connecting ≡ false
    → let m =
        on_handshake usable own
          (join
            (b':' ∷ [])
            (sid ∷ decimal heartbeat ∷ decimal close ∷ join (b',' ∷ []) (t ∷ ts) ∷ []))
          (connect l) in
      (m.attempt.log ≡ l.attempt.log ++ connect_failed ∷ [])
      × (m.attempt.chosen ≡ none)
      × (m.attempt.connecting ≡ true)
      × (m.asked ≡ suc l.asked)
      × (connect m ≡ m)
connect_stuck usable own sid heartbeat close t ts l hs hj ht hn unusable c =
    stuck_lem usable own _ l
      (ap (λ k. get_transport usable k.transports)
          (agree-join own sid heartbeat close t ts hs hj ht hn)
        ∙ get_transport-none usable (intersect (t ∷ ts) own) unusable)
      c
