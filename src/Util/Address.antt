-- ===== src/Util/Address.antt =====
-- io.util.parseUri: the expression and the parts that it names.
pub mod Segments
pub mod Paths
pub mod Written
pub mod Local
use socket_io_java.Common.{
  ℕ, Bool, false, not, ◌||◌, Option, none, some, Text, [], ◌∷◌, codes, eqb, is_digit,
}
use socket_io_java.Regex.{
  Regex, one, many, then_, either, maybe, group, unless, finish, Groups, exec, text_of, star, plus,
}

-- `[^…]` and `[…]`.
abbrev pub among : Text → ℕ → Bool
among [] c = false
among (d ∷ ds) c = eqb c d || among ds c

abbrev pub none_of : Text → ℕ → Bool
none_of ds c = not (among ds c)

abbrev pub char : ℕ → Regex
char d = one λ c. eqb c d

-- `.`, which matches no line terminator.
abbrev not_line_end : ℕ → Bool
not_line_end c = not (eqb c 10 || (eqb c 13 || (eqb c 0x2028 || eqb c 0x2029)))

-- `[^:@]+:[^:@\/]*`, which an `@` follows in the first lookahead.
abbrev pub login : Regex
login = then_ (plus (none_of (codes ":@"))) (then_ (char b':') (star (none_of (codes ":@/"))))

-- `(?:(?![^:@]+:[^:@\/]*@)([^:\/?#.]+):)?`.
abbrev pub protocol_part : Regex
protocol_part = maybe (
    then_ (unless (then_ login (char b'@')))
      (then_ (group 1 (plus (none_of (codes ":/?#.")))) (char b':')))

-- `(?:\/\/)?`.
abbrev pub slashes : Regex
slashes = maybe (then_ (char b'/') (char b'/'))

-- `(([^:@]*)(?::([^:@]*))?)?`, which an `@` follows.
abbrev pub user_part : Regex
user_part = maybe (
    group 3 (
      then_ (group 4 (star (none_of (codes ":@"))))
        (maybe (then_ (char b':') (group 5 (star (none_of (codes ":@"))))))))

-- `((?:…@)?([^:\/?#]*)(?::(\d*))?)`.
abbrev pub host_part : Regex
host_part = group 6 (star (none_of (codes ":/?#")))

abbrev pub port_part : Regex
port_part = maybe (then_ (char b':') (group 7 (star is_digit)))

abbrev pub authority : Regex
authority = group 2 (then_ (maybe (then_ user_part (char b'@'))) (then_ host_part port_part))

-- `[^?#\/]*\.[^?#\/.]+(?:[?#]|$)`: a file with an extension is not taken for a directory.
abbrev pub extension : Regex
extension = then_ (star (none_of (codes "?#/"))) (
    then_ (char b'.')
      (then_ (plus (none_of (codes "?#/."))) (either (one (among (codes "?#"))) finish)))

-- `(\/(?:[^?#](?!…))*\/?)?([^?#\/]*)`.
abbrev pub path_part : Regex
path_part = group 9 (
    then_
      (maybe (
        group 10
          (then_ (char b'/') (then_ (many (none_of (codes "?#")) extension) (maybe (char b'/'))))))
      (group 11 (star (none_of (codes "?#/")))))

-- `(?:\?([^#]*))?` and `(?:#(.*))?`.
abbrev pub query_part : Regex
query_part = maybe (then_ (char b'?') (group 12 (star (none_of (codes "#")))))

abbrev pub anchor_part : Regex
anchor_part = maybe (then_ (char b'#') (group 13 (star not_line_end)))

abbrev pub relative : Regex
relative = group 8 (then_ path_part (then_ query_part anchor_part))

unfoldable pub uri_regex : Regex
uri_regex = then_ protocol_part (then_ slashes (then_ authority relative))

-- The object that parseUri returns.
pub record Parts : Type 0 where
  pub source : Text
  pub protocol : Text
  pub authority_text : Text
  pub user_info : Text
  pub user : Text
  pub password : Text
  pub host : Text
  pub port : Text
  pub relative_text : Text
  pub path : Text
  pub directory : Text
  pub file : Text
  pub query : Text
  pub anchor : Text

abbrev pub parts_of : Groups → Parts
parts_of m = record {
  source = text_of 0 m;
  protocol = text_of 1 m;
  authority_text = text_of 2 m;
  user_info = text_of 3 m;
  user = text_of 4 m;
  password = text_of 5 m;
  host = text_of 6 m;
  port = text_of 7 m;
  relative_text = text_of 8 m;
  path = text_of 9 m;
  directory = text_of 10 m;
  file = text_of 11 m;
  query = text_of 12 m;
  anchor = text_of 13 m;
}

-- Without a match `m` is null, and reading it throws.
unfoldable pub parse_uri : Text → Option Parts
unfolding exec uri_regex
parse_uri s = elim (exec uri_regex s) [ none ↦ none | some m ↦ some (parts_of m) ]
