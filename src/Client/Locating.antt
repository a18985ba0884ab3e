-- ===== src/Client/Locating.antt =====
-- io.connect from the text of an address: io.util.parseUri, the options of the socket, and the namespace it is asked for.
use socket_io_java.Common.{
  lookup, InClass, is_digit, codes, ◌++◌, ℕ, Bool, true, false, Option, none, some, ◌≡◌, refl, ap,
  ◌∙◌, Text, [], ◌∷◌, ltb, length, arith,
}
use socket_io_java.Util.Address.{Parts, parse_uri, none_of}
use socket_io_java.Util.Address.Local.{parse_uri-name_port}
use socket_io_java.Util.Address.Written.{
  Written, IsWritten, written, parts_written, parse_uri-written,
}
use socket_io_java.Client.Sharing.{
  Uri, Surroundings, bare, worker, page, Sockets, complete, unique_uri, namespace_of, or_text,
  connect, connect_again,
}
use socket_io_java.Client.Addresses.{Address, address_of}
use socket_io_java.Client.Details.{
  Details, holds, connect_options, socket_options, address_in, connect_options-address,
}

-- What io.connect reads of the parsed address.
abbrev pub uri_of : Parts → Uri
uri_of p = record {
  protocol = p.protocol;
  host = p.host;
  port = p.port;
  path = p.path;
  query = p.query;
}

-- The socket, the options that a new one is made with, the name `of` is called with, and the sockets afterwards.
pub record Connected : Type 0 where
  pub socket : ℕ
  pub options : Address
  pub name : Text
  pub sockets : Sockets

-- `options['force new connection']`.
unfoldable pub forces : Details → Bool
unfolding lookup
forces options = holds (lookup (codes "force new connection") options)

abbrev connected : Surroundings → Uri → Details → Sockets → Connected
connected w u details s =
    let options = connect_options (complete w u) details in
    let (i, s') = connect w u (forces options) s in
    record {
      socket = i;
      options = address_in (socket_options options);
      name = namespace_of (complete w u);
      sockets = s';
    }

-- `io.connect(host, details)`. An address that parseUri does not read throws.
unfoldable pub io_connect : Surroundings → Text → Details → Sockets → Option Connected
unfolding connect parse_uri complete connect_options socket_options address_in forces
io_connect w host details s = elim (parse_uri host) [
  | none ↦ none
  | some p ↦ some (connected w (uri_of p) details s)
]

-- Without details nothing is forced.
not_forced : (u : Uri) → forces (connect_options u []) ≡ false
unfolding forces connect_options lookup
not_forced u = refl

-- The namespace of a written address: its path, unless it is the root.
abbrev pub room : Option Text → Text
room none = []
room (some []) = []
room (some (x ∷ t)) = b'/' ∷ x ∷ t

io_connect-written :
    (w : Surroundings) (a : Written) (details : Details) (s : Sockets)
    → IsWritten a
    → io_connect w (written a) details s ≡ some (connected w (uri_of (parts_written a)) details s)
unfolding io_connect
io_connect-written w a details s h = rw (parse_uri-written a h, io_connect) refl

namespace_of-complete : (w : Surroundings) (u : Uri) → namespace_of (complete w u) ≡ namespace_of u
unfolding complete
namespace_of-complete bare u = refl
namespace_of-complete (worker l) u = refl
namespace_of-complete (page l d) u = refl

namespace_of-room : (a : Written) → namespace_of (uri_of (parts_written a)) ≡ room a.path
namespace_of-room a = by_path a.path
  where
    long : (x : ℕ) (t : Text) → ltb 1 (length (b'/' ∷ x ∷ t)) ≡ true
    long x t = ground arith

    by_path :
        (o : Option Text) → namespace_of (uri_of (parts_written (record a { path = o }))) ≡ room o
    by_path none = refl
    by_path (some []) = refl
    by_path (some (x ∷ t)) = rw (long x t) refl

unique_uri-path :
    (w : Surroundings) (u : Uri) (p q : Text)
    → unique_uri w (complete w u) ≡ unique_uri w (complete w (record u { path = p; query = q }))
unfolding complete unique_uri
unique_uri-path bare u p q = refl
unique_uri-path (worker l) u p q = refl
unique_uri-path (page l d) u p q = refl

-- Two calls of io.connect for addresses that are written out and differ only in the path and the query return two namespaces,
-- each the path of its address, of one and the same socket: the second call makes none. Neither call has details.
pub io_connect_again :
    (w : Surroundings) (a : Written) (p q : Option Text) (s : Sockets)
    → IsWritten a
    → IsWritten (record a { path = p; query = q })
    → (c : Connected) × (d : Connected) × (io_connect w (written a) [] s ≡ some c)
      × (io_connect w (written (record a { path = p; query = q })) [] c.sockets ≡ some d)
      × (d.socket ≡ c.socket)
      × (d.sockets ≡ c.sockets)
      × (c.name ≡ room a.path)
      × (d.name ≡ room p)
unfolding forces connect_options
io_connect_again w a p q s h k =
    let b : Written = record a { path = p; query = q } in
    let c = connected w (uri_of (parts_written a)) [] s in
    let same =
      connect_again w (uri_of (parts_written a)) (uri_of (parts_written b)) s
        (unique_uri-path w _ _ _) in
    (
      c,
      connected w (uri_of (parts_written b)) [] c.sockets,
      io_connect-written w a [] s h,
      io_connect-written w b [] c.sockets k,
      ap (λ r. r.0) same,
      ap (λ r. r.1) same,
      namespace_of-complete w (uri_of (parts_written a)) ∙ namespace_of-room a,
      namespace_of-complete w (uri_of (parts_written b)) ∙ namespace_of-room b,
    )

host-complete :
    (w : Surroundings) (u : Uri) (y : ℕ) (t : Text)
    → u.host ≡ y ∷ t
    → (address_of (complete w u)).host ≡ y ∷ t
unfolding complete address_of
host-complete bare u y t e = e
host-complete (worker l) u y t e = ap (λ k. or_text k l.hostname) e
host-complete (page l d) u y t e = ap (λ k. or_text k d) e

-- io.connect with a name and a port but no protocol, as localhost:8080, asks for a socket to a host that is named by the port. The
-- name is not empty and has no dot and none of `:/?#@`, the port is at least one digit, and there are no details.
pub io_connect-name_port :
    (w : Surroundings) (x : ℕ) (name : Text) (y : ℕ) (port : Text) (s : Sockets)
    → InClass (none_of (codes ":/?#.@")) (x ∷ name)
    → InClass is_digit (y ∷ port)
    → (c : Connected) × (io_connect w ((x ∷ name) ++ b':' ∷ y ∷ port) [] s ≡ some c)
      × (c.options.host ≡ y ∷ port)
unfolding io_connect
io_connect-name_port w x name y port s h hp =
    let (p, e, _, host, _) = parse_uri-name_port x name (y ∷ port) h hp in
    (
      connected w (uri_of p) [] s,
      rw (e, io_connect) refl,
      ap (λ a. a.host) (connect_options-address (complete w (uri_of p)))
          ∙ host-complete w (uri_of p) y port host,
    )
