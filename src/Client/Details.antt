-- ===== src/Client/Details.antt =====
-- The options of a socket: the literal of io.connect, the details of the caller and the defaults of io.Socket, put together by
-- util.merge.
use socket_io_java.Common.{
  Bool, true, false, not, ◌&&◌, ◌||◌, Option, none, some, ◌≡◌, refl, ◌∙◌, Text, List, [], ◌∷◌, ◌++◌,
  codes, if◌then◌else◌, ◌==◌, text_eq, nat_eq, lookup, insert,
}
use socket_io_java.Client.Sharing.{Uri, is_https, option_port, or_text}
use socket_io_java.Client.Addresses.{Address, address_of}

-- A value of an option; those that are objects, `document` and `transports`, are left out.
pub data Detail : Type 0 where
  as_text as_number : Text → Detail
  as_flag : Bool → Detail

abbrev pub Details : Type 0
Details = List (Text × Detail)

-- `~indexOf(seen, prop)`: the values that were written before, compared with a name.
abbrev is_name : Detail → Text → Bool
is_name (as_text t) name = t == name
is_name _ name = false

abbrev has_value : List Detail → Text → Bool
has_value [] name = false
has_value (d ∷ ds) name = is_name d name || has_value ds name

-- util.merge, where no value is an object.
unfoldable pub merge_details : Details → Details → List Detail → Details
unfolding insert
merge_details target [] seen = target
merge_details target ((name, d) ∷ more) seen =
    let skipped = merge_details target more seen in
    let merged = merge_details (insert name d target) more (seen ++ d ∷ []) in
    if has_value seen name then skipped else merged

-- The options of io.connect, with the details of its caller.
abbrev port_detail : Uri → Detail
port_detail u =
    if u.port == []
    then as_number (if is_https u then codes "443" else codes "80")
    else as_text u.port

unfoldable pub connect_options : Uri → Details → Details
unfolding merge_details
connect_options u details =
    merge_details
      ((codes "host", as_text u.host)
        ∷ (codes "secure", as_flag (is_https u))
        ∷ (codes "port", port_detail u)
        ∷ (codes "query", as_text u.query)
        ∷ [])
      details []

abbrev defaults : Details
defaults =
    (codes "port", as_number (codes "80"))
    ∷ (codes "secure", as_flag false)
    ∷ (codes "resource", as_text (codes "socket.io"))
    ∷ (codes "connect timeout", as_number (codes "10000"))
    ∷ (codes "try multiple transports", as_flag true)
    ∷ (codes "reconnect", as_flag true)
    ∷ (codes "reconnection delay", as_number (codes "500"))
    ∷ (codes "reconnection limit", as_number (codes "Infinity"))
    ∷ (codes "reopen delay", as_number (codes "3000"))
    ∷ (codes "max reconnection attempts", as_number (codes "10"))
    ∷ (codes "sync disconnect on unload", as_flag true)
    ∷ (codes "auto connect", as_flag true)
    ∷ (codes "flash policy port", as_number (codes "10843"))
    ∷ []

-- The options of the socket that is made.
unfoldable pub socket_options : Details → Details
unfolding merge_details
socket_options options = merge_details defaults options []

-- How an option is read: as a text that an address is put together of, as a condition, and as a query string; one that is no
-- text has no `split`, and counts as none here.
abbrev spelled : Option Detail → Text
spelled none = codes "undefined"
spelled (some (as_text t)) = t
spelled (some (as_number t)) = t
spelled (some (as_flag true)) = codes "true"
spelled (some (as_flag false)) = codes "false"

abbrev pub holds : Option Detail → Bool
holds none = false
holds (some (as_text t)) = not (t == [])
holds (some (as_number t)) = not (t == codes "0")
holds (some (as_flag b)) = b

abbrev query_given : Option Detail → Text
query_given (some (as_text t)) = t
query_given _ = []

unfoldable pub address_in : Details → Address
unfolding lookup
address_in options = record {
  host = spelled (lookup (codes "host") options);
  port = spelled (lookup (codes "port") options);
  secure = holds (lookup (codes "secure") options);
  resource = spelled (lookup (codes "resource") options);
  base_query = query_given (lookup (codes "query") options);
}

abbrev four : Text → Bool → Detail → Text → Details
four host secure port query =
    (codes "host", as_text host)
    ∷ (codes "secure", as_flag secure)
    ∷ (codes "port", port)
    ∷ (codes "query", as_text query)
    ∷ []

address_in-four :
    (host : Text) (secure : Bool) (port : Detail) (query : Text)
    → let skips = host == codes "port" in
      let lost = (host == codes "query") || (not skips && is_name port (codes "query")) in
      address_in (socket_options (four host secure port query)) ≡ record {
        host = host;
        port = if skips then codes "80" else spelled (some port);
        secure = if host == codes "secure" then false else secure;
        resource = codes "socket.io";
        base_query = if lost then [] else query;
      }
unfolding socket_options merge_details address_in lookup insert
address_in-four host secure port query =
    by_name (host == codes "secure") (host == codes "port") (host == codes "query")
      (is_name port (codes "query")) refl refl refl refl
  where
    by_name :
        (a b c e : Bool)
        → (host == codes "secure") ≡ a
        → (host == codes "port") ≡ b
        → (host == codes "query") ≡ c
        → is_name port (codes "query") ≡ e
        → address_in (socket_options (four host secure port query)) ≡ record {
          host = host;
          port = if b then codes "80" else spelled (some port);
          secure = if a then false else secure;
          resource = codes "socket.io";
          base_query = if c || (not b && e) then [] else query;
        }
    by_name false false false false p q r s = rw (p, q, r, s) refl
    by_name false false false true p q r s = rw (p, q, r, s) refl
    by_name false false true e p q r s = rw (p, q, r) refl
    by_name false true false e p q r s = rw (p, q, r) refl
    by_name false true true e p q r s = rw (p, q, r) refl
    by_name true false false false p q r s = rw (p, q, r, s) refl
    by_name true false false true p q r s = rw (p, q, r, s) refl
    by_name true false true e p q r s = rw (p, q, r) refl
    by_name true true false e p q r s = rw (p, q, r) refl
    by_name true true true e p q r s = rw (p, q, r) refl

port_detail-is_name :
    (u : Uri) (t : Text) → is_name (port_detail u) t ≡ (not (u.port == []) && (u.port == t))
port_detail-is_name u t = by_port u.port
  where
    by_port :
        (s : Text)
        → is_name
            (if s == []
              then as_number (if is_https u then codes "443" else codes "80")
              else as_text s)
            t
          ≡ (not (s == []) && (s == t))
    by_port [] = refl
    by_port (c ∷ s) = refl

port_detail-spelled : (u : Uri) → spelled (some (port_detail u)) ≡ option_port u
port_detail-spelled u = by_port u.port
  where
    by_port :
        (s : Text)
        → spelled (
            some (
              if s == []
              then as_number (if is_https u then codes "443" else codes "80")
              else as_text s))
          ≡ or_text s (if is_https u then codes "443" else codes "80")
    by_port [] = refl
    by_port (c ∷ s) = refl

port_query : (s : Text) → (not (s == []) && (s == codes "query")) ≡ (s == codes "query")
port_query [] = refl
port_query (c ∷ s) = refl

-- The options of a socket that io.connect makes without details are those of the address, but a value that is the name of a later
-- option hides it: a host 'secure' makes the connection insecure, a host 'port' makes it use port 80,
-- and a host or a port 'query' loses the query string.
pub connect_options-address :
    (u : Uri)
    → let secure = u.host == codes "secure" in
      let port = u.host == codes "port" in
      let query = (u.host == codes "query") || (not port && (u.port == codes "query")) in
      address_in (socket_options (connect_options u [])) ≡ record (address_of u) {
        secure = if secure then false else is_https u;
        port = if port then codes "80" else option_port u;
        base_query = if query then [] else u.query;
      }
unfolding connect_options merge_details address_of
connect_options-address u =
    address_in-four u.host (is_https u) (port_detail u) u.query
    ∙ rw (port_detail-is_name u (codes "query"), port_detail-spelled u, port_query u.port) refl
