-- ===== src/Client/Sharing.antt =====
-- io.connect from the parsed address on, and io.util.uniqueUri: which calls share a socket.
use socket_io_java.Common.{
  ℕ, suc, Bool, true, false, not, ◌&&◌, Option, none, some, ◌≡◌, ◌≢◌, ◌<◌, refl, ap, sym, ◌∙◌, Text,
  List, [], ◌∷◌, ◌++◌, if◌then◌else◌, arith, ◌==◌, text_eq, nat_eq, lookup, insert, lookup-insert,
  beq_refl, codes, length, ltb,
}

-- The parts of an address that are read here, each empty where it is missing.
pub record Uri : Type 0 where
  pub protocol : Text
  pub host : Text
  pub port : Text
  pub path : Text
  pub query : Text

-- `global.location`, with the protocol and its colon.
pub record Location : Type 0 where
  pub protocol : Text
  pub hostname : Text
  pub port : Text

-- Where the code runs: without a location, in a worker, or in a page with the domain of its document.
pub data Surroundings : Type 0 where
  bare : Surroundings
  worker : Location → Surroundings
  page : Location → Text → Surroundings

-- `a || b` on texts.
abbrev pub or_text : Text → Text → Text
or_text a b = if a == [] then b else a

-- `text.slice(0, -1)`.
abbrev pub without_last : Text → Text
without_last [] = []
without_last (c ∷ []) = []
without_last (c ∷ d ∷ cs) = c ∷ without_last (d ∷ cs)

abbrev fill : Location → Text → Uri → Uri
fill l h u = record u {
  protocol = or_text u.protocol (without_last l.protocol);
  host = or_text u.host h;
  port = or_text u.port l.port;
}

-- What io.connect takes from the location.
unfoldable pub complete : Surroundings → Uri → Uri
complete bare u = u
complete (worker l) u = fill l l.hostname u
complete (page l d) u = fill l d u

abbrev pub is_https : Uri → Bool
is_https u = u.protocol == codes "https"

abbrev address : Text → Text → Text → Text
address protocol host port =
    or_text protocol (codes "http") ++ codes "://" ++ host ++ codes ":" ++ or_text port (codes "80")

abbrev outside : Uri → Text
outside u =
    address u.protocol (or_text u.host (codes "localhost"))
      (if (u.port == []) && is_https u then codes "443" else u.port)

unfoldable pub unique_uri : Surroundings → Uri → Text
unique_uri bare u = outside u
unique_uri (worker l) u = outside u
unique_uri (page l d) u = address u.protocol (or_text u.host d) (
    or_text u.port
      (if is_https u && not (l.protocol == codes "https:") then codes "443" else l.port))

-- `options.port`.
abbrev pub option_port : Uri → Text
option_port u = or_text u.port (if is_https u then codes "443" else codes "80")

-- `io.sockets`, by the number of the socket, and how many sockets were made.
pub record Sockets : Type 0 where
  pub shared : List (Text × ℕ)
  pub made : ℕ

-- The name that `of` is called with.
abbrev pub namespace_of : Uri → Text
namespace_of u = if ltb 1 (length u.path) then u.path else []

abbrev share : Text → Bool → Option ℕ → Sockets → ℕ × Sockets
share key true o s = (s.made, record s { made = suc s.made })
share key false (some i) s = (i, s)
share key false none s = (s.made, record { shared = insert key s.made s.shared; made = suc s.made })

-- The socket that io.connect uses, with the option 'force new connection'.
unfoldable pub connect : Surroundings → Uri → Bool → Sockets → ℕ × Sockets
unfolding complete unique_uri lookup insert
connect w u force s =
    let key = unique_uri w (complete w u) in share key force (lookup key s.shared) s

-- The numbers of the shared sockets are below the next one.
pub record IsFresh (s : Sockets) : Type 0 where
  pub below : (key : Text) (i : ℕ) → lookup key s.shared ≡ some i → i < s.made

abbrev key_in : Surroundings → Uri → Text
key_in w u = unique_uri w (complete w u)

share_again :
    (key : Text) (o : Option ℕ) (s : Sockets)
    → lookup key s.shared ≡ o
    → let (i, s') = share key false o s in share key false (lookup key s'.shared) s' ≡ (i, s')
share_again key (some i) s e = ap (λ o. share key false o s) e
share_again key none s e =
    ap (λ o. share key false o (share key false none s).1)
      (lookup-insert key key s.made s.shared
        ∙ ap (λ b. if b then some s.made else lookup key s.shared) (beq_refl key))

-- Calls of io.connect whose addresses have the same unique text share a socket, unless one is forced:
-- the second call gives the socket of the first and makes none.
pub connect_again :
    (w : Surroundings) (u v : Uri) (s : Sockets)
    → unique_uri w (complete w u) ≡ unique_uri w (complete w v)
    → let (i, s') = connect w u false s in connect w v false s' ≡ (i, s')
unfolding connect
connect_again w u v s e =
    ap
      (λ k.
        share k false
          (lookup k (share (key_in w u) false (lookup (key_in w u) s.shared) s).1.shared)
          (share (key_in w u) false (lookup (key_in w u) s.shared) s).1)
      (sym e)
    ∙ share_again (key_in w u) (lookup (key_in w u) s.shared) s refl

-- A forced connection has a socket of its own, which no shared one is, and is not shared itself.
connect_forced :
    (w : Surroundings) (u : Uri) (s : Sockets) (key : Text) (i : ℕ)
    → IsFresh s
    → lookup key s.shared ≡ some i
    → let (j, s') = connect w u true s in (i ≢ j) × (s'.shared ≡ s.shared)
unfolding connect
connect_forced w u s key i h e = (omega (arith, h.below key i e), refl)

share-IsFresh :
    (key : Text) (force : Bool) (o : Option ℕ) (s : Sockets)
    → IsFresh s
    → IsFresh (share key force o s).1
share-IsFresh key true o s h = record { below = λ k i e. omega (arith, h.below k i e) }
share-IsFresh key false (some j) s h = h
share-IsFresh key false none s h = record {
  below = λ k i e. ground (arith, h.below k i, lookup-insert key k s.made s.shared, e);
}

-- Every call of io.connect keeps the numbers of the shared sockets below the next one.
connect-IsFresh :
    (w : Surroundings) (u : Uri) (force : Bool) (s : Sockets)
    → IsFresh s
    → IsFresh (connect w u force s).1
unfolding connect
connect-IsFresh w u force s h = share-IsFresh (key_in w u) force (lookup (key_in w u) s.shared) s h

-- On a page over https at the default port, an address that names only a host gets the unique text with port 80, and the
-- same address with port 443 written out the one with 443; the sockets of both are made for port 443.
https_default_port :
    (name d h : Text)
    → (h == []) ≡ false
    → let w = page (record { protocol = codes "https:"; hostname = name; port = [] }) d in
      let u = complete w (record { protocol = []; host = h; port = []; path = []; query = [] }) in
      let v =
        complete w
          (record { protocol = []; host = h; port = codes "443"; path = []; query = [] }) in
      (unique_uri w u ≡ codes "https://" ++ h ++ codes ":" ++ codes "80")
      × (unique_uri w v ≡ codes "https://" ++ h ++ codes ":" ++ codes "443")
      × (option_port u ≡ codes "443")
      × (option_port v ≡ codes "443")
unfolding complete unique_uri
https_default_port name d h e = simp e (refl, refl, refl, refl)
