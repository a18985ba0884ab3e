-- ===== src/Util/Address/Written.antt =====
-- parseUri on addresses that are written out, and on any text.
use mathlib.Core.Path.{subst}
use socket_io_java.Common.{
  ℕ, Bool, Option, none, some, ◌≡◌, refl, sym, ap, Text, [], ◌∷◌, ◌++◌, codes, InClass, append-nil,
}
use socket_io_java.Regex.{then_, group, Groups, Rest, ends, exec, match}
use socket_io_java.Regex.Laws.{match-IsSome, group-through}
use socket_io_java.Util.Address.{
  none_of, slashes, authority, relative, uri_regex, Parts, parts_of, parse_uri,
}
use socket_io_java.Util.Address.Segments.{
  port_text, port_groups, IsPort, IsBehind, protocol-through, authority-through, slashes-through,
}
use socket_io_java.Util.Address.Paths.{
  query_text, query_groups, IsQuery, path_text, path_groups, IsPath, relative-through,
}

-- An address as it is written out: a protocol, a host, and a port, a path and a query that may be left out.
pub record Written : Type 0 where
  pub first : ℕ
  pub protocol : Text
  pub host : Text
  pub port : Option Text
  pub path : Option Text
  pub query : Option Text

abbrev pub written : Written → Text
written w =
    (w.first ∷ w.protocol)
    ++ b':'
      ∷ (codes "//" ++ ((w.host ++ port_text w.port) ++ (path_text w.path ++ query_text w.query)))

-- No part has a code unit that ends it, the path has no extension, and there is no user.
pub record IsWritten (w : Written) : Type 0 where
  pub protocol : InClass (none_of (codes ":/?#.")) (w.first ∷ w.protocol)
  pub host : InClass (none_of (codes ":/?#")) w.host
  pub port : IsPort w.port
  pub path : IsPath w.path
  pub query : IsQuery w.query
  pub no_user : InClass (none_of (codes "@")) (written w)

abbrev or_nothing : Option Text → Text
or_nothing none = []
or_nothing (some t) = t

abbrev pub parts_written : Written → Parts
parts_written w = record {
  source = written w;
  protocol = w.first ∷ w.protocol;
  authority_text = w.host ++ port_text w.port;
  user_info = [];
  user = [];
  password = [];
  host = w.host;
  port = or_nothing w.port;
  relative_text = path_text w.path ++ query_text w.query;
  path = path_text w.path;
  directory = path_text w.path;
  file = [];
  query = or_nothing w.query;
  anchor = [];
}

abbrev groups_behind : Written → Groups
groups_behind w =
    (8, path_text w.path ++ query_text w.query)
    ∷ query_groups w.query (
        (9, path_text w.path)
        ∷ path_groups w.path (
            (2, w.host ++ port_text w.port)
            ∷ port_groups w.port ((6, w.host) ∷ (1, w.first ∷ w.protocol) ∷ [])))

InClass-behind : (p : ℕ → Bool) (t u : Text) → InClass p (t ++ u) → InClass p u
InClass-behind p [] u h = h
InClass-behind p (x ∷ t) u h = InClass-behind p t u h.1

path-IsBehind : (o q : Option Text) → IsBehind (path_text o ++ query_text q)
path-IsBehind none none = tt
path-IsBehind none (some t) = refl
path-IsBehind (some t) q = refl

abbrev after_slashes : Written → Text
after_slashes w = (w.host ++ port_text w.port) ++ (path_text w.path ++ query_text w.query)

uri-through :
    (w : Written) (l : Rest) (d : Groups)
    → IsWritten w
    → l (groups_behind w) [] ≡ some d
    → match uri_regex l [] (written w) ≡ some d
unfolding uri_regex match
uri-through w l d h e =
    protocol-through (match (then_ slashes (then_ authority relative)) l) [] w.first w.protocol
      (b'/' ∷ b'/' ∷ after_slashes w) d h.protocol h.no_user
      (slashes-through (match (then_ authority relative) l) ((1, w.first ∷ w.protocol) ∷ [])
        (after_slashes w) d
        (authority-through (match relative l) ((1, w.first ∷ w.protocol) ∷ []) w.host w.port
          (path_text w.path ++ query_text w.query) d h.host h.port (path-IsBehind w.path w.query)
          (InClass-behind (none_of (codes "@")) (w.first ∷ w.protocol)
            (b':' ∷ b'/' ∷ b'/' ∷ after_slashes w) h.no_user).1.1.1
          (relative-through l _ w.path w.query d h.path h.query e)))

pub exec-through :
    (s : Text) (c : Groups)
    → ((l : Rest) (d : Groups) → l c [] ≡ some d → match uri_regex l [] s ≡ some d)
    → exec uri_regex s ≡ some ((0, s) ∷ c)
unfolding exec
exec-through s c h =
    subst (λ t. match (group 0 uri_regex) ends [] t ≡ some ((0, s) ∷ c)) whole
      (group-through uri_regex 0 ends [] c s [] (some ((0, s) ∷ c))
        (λ l f. subst (λ t. match uri_regex l [] t ≡ some ((0, s) ∷ c)) (sym whole) (h l _ f)) refl)
  where
    whole : s ++ [] ≡ s
    whole = append-nil s

parts-groups : (w : Written) → parts_of ((0, written w) ∷ groups_behind w) ≡ parts_written w
parts-groups w = same w.port w.path w.query
  where
    same :
        (o p q : Option Text)
        → parts_of (
            (0, written (record w { port = o; path = p; query = q }))
            ∷ groups_behind (record w { port = o; path = p; query = q }))
          ≡ parts_written (record w { port = o; path = p; query = q })
    same none none none = refl
    same none none (some q) = refl
    same none (some p) none = refl
    same none (some p) (some q) = refl
    same (some o) none none = refl
    same (some o) none (some q) = refl
    same (some o) (some p) none = refl
    same (some o) (some p) (some q) = refl

-- An address that is written out with a protocol is read as its parts: the host, and the port, the path and the query where they
-- are there. The protocol and the path have no dot, the port is digits, and no part has a code unit that ends it or an `@`.
pub parse_uri-written : (w : Written) → IsWritten w → parse_uri (written w) ≡ some (parts_written w)
unfolding parse_uri
parse_uri-written w h =
    rw (exec-through (written w) (groups_behind w) (λ l d. uri-through w l d h), parse_uri)
      (ap some (parts-groups w))

-- parseUri returns its object for every text: the expression matches whatever it is given.
pub parse_uri-total : (s : Text) → (p : Parts) × (parse_uri s ≡ some p)
unfolding parse_uri exec uri_regex
parse_uri-total s =
    let (m, e) = match-IsSome (group 0 uri_regex) ends [] s refl (λ c t. (c, refl)) in
    (parts_of m, rw e refl)
