-- ===== src/Client/Scripts.antt =====
-- io.j, the functions that scripts from the server call: Socket.handshake and the constructor of JSONPPolling.
use socket_io_java.Common.{
  ℕ, zero, suc, Bool, true, false, not, ◌&&◌, ◌≡◌, refl, arith, Option, none, some, Text, List, [],
  ◌∷◌, ◌++◌, codes, decimal, if◌then◌else◌, length, get_elem?, All, All-append, eqb, Option-cases,
  inl, inr,
}
use socket_io_java.Client.Addresses.{Address, handshake_url, prepare_url, script_url}
use socket_io_java.Util.Query.{query}
use socket_io_java.Client.State.{jsonp_polling}

-- Whose function it is: of the handshake of a socket, or of a transport.
pub data Receiver : Type 0 where
  handshake_of transport_of : ℕ → Receiver

-- What was asked for and by whom: an address by a request, or by a script, which calls a function of io.j.
pub data Asked : Type 0 where
  by_request : Text → Receiver → Asked
  by_script : Text → Receiver → Asked

-- io.j, the indices of the transports that poll by scripts, and all that was asked for.
pub record Scripts : Type 0 where
  pub j : List Receiver
  pub indices : List (ℕ × ℕ)
  pub asked : List Asked

-- Socket.handshake of a socket, at a time, across domains or not.
unfoldable pub handshake : Bool → Bool → Address → ℕ → ℕ → Scripts → Scripts
unfolding handshake_url
handshake crosses cors a time socket s =
    let url = handshake_url a time in
    if crosses && not cors
    then record s {
      asked =
          s.asked
          ++ by_script (url ++ (codes "&jsonp=" ++ decimal (length s.j))) (handshake_of socket)
            ∷ [];
      j = s.j ++ handshake_of socket ∷ [];
    }
    else record s { asked = s.asked ++ by_request url (handshake_of socket) ∷ [] }

-- The constructor of JSONPPolling.
unfoldable pub new_transport : ℕ → Scripts → Scripts
new_transport transport s = record s {
  indices = (transport, length s.j) ∷ s.indices;
  j = s.j ++ transport_of transport ∷ [];
}

abbrev pub index_in : ℕ → List (ℕ × ℕ) → Option ℕ
index_in transport [] = none
index_in transport ((t, i) ∷ is) =
    let rest = index_in transport is in if eqb t transport then some i else rest

abbrev ask : Address → Text → ℕ → ℕ → Option ℕ → Scripts → Scripts
ask a sessid time transport none s = s
ask a sessid time transport (some i) s = record s {
  asked =
      s.asked ++ by_script (script_url jsonp_polling a sessid time i) (transport_of transport) ∷ [];
}

-- JSONPPolling.get of a transport.
unfoldable pub get_script : Address → Text → ℕ → ℕ → Scripts → Scripts
unfolding script_url
get_script a sessid time transport s = ask a sessid time transport (index_in transport s.indices) s

-- What a page does with io.j.
pub data Call : Type 0 where
  handshakes : Bool → Bool → Address → ℕ → ℕ → Call
  makes : ℕ → Call
  gets : Address → Text → ℕ → ℕ → Call

abbrev pub call : Call → Scripts → Scripts
call (handshakes crosses cors a time socket) s = handshake crosses cors a time socket s
call (makes transport) s = new_transport transport s
call (gets a sessid time transport) s = get_script a sessid time transport s

abbrev pub calls : List Call → Scripts → Scripts
calls [] s = s
calls (c ∷ cs) s = calls cs (call c s)

-- The addresses that name a function of io.j by its index: behind the handshake's own, and in the query of a poll.
abbrev NamesIndex : Receiver → Text → ℕ → Type 0
NamesIndex (handshake_of socket) url i =
    (front : Text) × (url ≡ front ++ (codes "&jsonp=" ++ decimal i))
NamesIndex (transport_of t) url i =
    (front base : Text) × (time : ℕ) × (url
      ≡ front
        ++ query (some base) (some (codes "t=" ++ (decimal time ++ (codes "&i=" ++ decimal i)))))

-- The function at the index in the address of a script is the one of the receiver that asked for it.
abbrev pub IsAnswered : List Receiver → Asked → Type 0
IsAnswered j (by_request url r) = Unit {0}
IsAnswered j (by_script url r) = (i : ℕ) × NamesIndex r url i × (get_elem? j i ≡ some r)

abbrev IsIndexed : List Receiver → ℕ × ℕ → Type 0
IsIndexed j (t, i) = get_elem? j i ≡ some (transport_of t)

-- Every script that was asked for, and every index of a transport, leads back to its owner.
abbrev pub IsRouted : Scripts → Type 0
IsRouted s = All (IsAnswered s.j) s.asked × All (IsIndexed s.j) s.indices

get_elem?-append :
    (j : List Receiver) (more : List Receiver) (i : ℕ) (r : Receiver)
    → get_elem? j i ≡ some r
    → get_elem? (j ++ more) i ≡ some r
get_elem?-append [] more i r h = absurd (cc h)
get_elem?-append (x ∷ j) more zero r h = h
get_elem?-append (x ∷ j) more (suc i) r h = get_elem?-append j more i r h

get_elem?-last : (j : List Receiver) (r : Receiver) → get_elem? (j ++ r ∷ []) (length j) ≡ some r
get_elem?-last [] r = refl
get_elem?-last (x ∷ j) r = get_elem?-last j r

All-IsAnswered :
    (j more : List Receiver) (questions : List Asked)
    → All (IsAnswered j) questions
    → All (IsAnswered (j ++ more)) questions
All-IsAnswered j more [] h = tt
All-IsAnswered j more (by_request url r ∷ questions) h = (tt, All-IsAnswered j more questions h.1)
All-IsAnswered j more (by_script url r ∷ questions) ((i, n, e), h) =
    ((i, n, get_elem?-append j more i r e), All-IsAnswered j more questions h)

All-IsIndexed :
    (j more : List Receiver) (is : List (ℕ × ℕ))
    → All (IsIndexed j) is
    → All (IsIndexed (j ++ more)) is
All-IsIndexed j more [] h = tt
All-IsIndexed j more ((t, i) ∷ is) h =
    (get_elem?-append j more i (transport_of t) h.0, All-IsIndexed j more is h.1)

index_in-IsIndexed :
    (j : List Receiver) (transport : ℕ) (is : List (ℕ × ℕ)) (i : ℕ)
    → All (IsIndexed j) is
    → index_in transport is ≡ some i
    → get_elem? j i ≡ some (transport_of transport)
index_in-IsIndexed j transport [] i h e = absurd (cc e)
index_in-IsIndexed j transport ((t, k) ∷ is) i h e =
    grind (arith, index_in-IsIndexed j transport is i h.1, h.0)

handshake-IsRouted :
    (crosses cors : Bool) (a : Address) (time socket : ℕ) (s : Scripts)
    → IsRouted s
    → IsRouted (handshake crosses cors a time socket s)
unfolding handshake
handshake-IsRouted crosses cors a time socket s (h, k) = either (crosses && not cors)
  where
    own : Receiver
    own = handshake_of socket

    script : Asked
    script = by_script (handshake_url a time ++ (codes "&jsonp=" ++ decimal (length s.j))) own

    either :
        (b : Bool)
        → IsRouted (
            if b
            then record s { asked = s.asked ++ script ∷ []; j = s.j ++ own ∷ [] }
            else record s { asked = s.asked ++ by_request (handshake_url a time) own ∷ [] })
    either true = (
      All-append (IsAnswered (s.j ++ own ∷ [])) s.asked (script ∷ [])
          (All-IsAnswered s.j (own ∷ []) s.asked h)
          ((length s.j, (handshake_url a time, refl), get_elem?-last s.j own), tt),
      All-IsIndexed s.j (own ∷ []) s.indices k,
    )
    either false = (All-append (IsAnswered s.j) s.asked _ h (tt, tt), k)

new_transport-IsRouted : (t : ℕ) (s : Scripts) → IsRouted s → IsRouted (new_transport t s)
unfolding new_transport
new_transport-IsRouted t s (h, k) = (
  All-IsAnswered s.j (transport_of t ∷ []) s.asked h,
  (get_elem?-last s.j (transport_of t), All-IsIndexed s.j (transport_of t ∷ []) s.indices k),
)

named :
    (t : ℕ) (a : Address) (sessid : Text) (time i : ℕ)
    → NamesIndex (transport_of t) (script_url jsonp_polling a sessid time i) i
unfolding script_url
named t a sessid time i = (prepare_url jsonp_polling a sessid, a.base_query, time, refl)

get_script-IsRouted :
    (a : Address) (sessid : Text) (time t : ℕ) (s : Scripts)
    → IsRouted s
    → IsRouted (get_script a sessid time t s)
unfolding get_script
get_script-IsRouted a sessid time t s (h, k) = elim (Option-cases (index_in t s.indices)) [
  | inl e ↦ rw e (h, k)
  | inr (i, e) ↦ rw e (
    All-append (IsAnswered s.j) s.asked _ h
        ((i, named t a sessid time i, index_in-IsIndexed s.j t s.indices i k e), tt),
    k,
  )
]

call-IsRouted : (c : Call) (s : Scripts) → IsRouted s → IsRouted (call c s)
call-IsRouted (handshakes crosses cors a time socket) s h =
    handshake-IsRouted crosses cors a time socket s h
call-IsRouted (makes t) s h = new_transport-IsRouted t s h
call-IsRouted (gets a sessid time t) s h = get_script-IsRouted a sessid time t s h

-- However handshakes, new transports and polls follow one another, the function in io.j at the index that the address of a
-- script names is the one of the socket or the transport that asked for the script, also after others were added.
pub calls-IsRouted : (cs : List Call) (s : Scripts) → IsRouted s → IsRouted (calls cs s)
calls-IsRouted [] s h = h
calls-IsRouted (c ∷ cs) s h = calls-IsRouted cs (call c s) (call-IsRouted c s h)
