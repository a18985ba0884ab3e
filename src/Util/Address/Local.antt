-- ===== src/Util/Address/Local.antt =====
-- parseUri on a name and a port without a protocol.
use mathlib.Core.Path.{subst}
use socket_io_java.Common.{
  ℕ, Bool, true, none, some, ◌≡◌, refl, sym, ◌∙◌, arith, Text, [], ◌∷◌, ◌++◌, codes, eqb, is_digit,
  InClass, Stops, append-nil, All-append,
}
use socket_io_java.Regex.{then_, Groups, Rest, match}
use socket_io_java.Regex.Laws.{optional-skip}
use socket_io_java.Util.Address.{
  none_of, char, slashes, authority, relative, uri_regex, Parts, parts_of, parse_uri,
}
use socket_io_java.Util.Address.Segments.{protocol-through, authority-through}
use socket_io_java.Util.Address.Paths.{relative-through}
use socket_io_java.Util.Address.Written.{exec-through}

InClass-weaken :
    (p q : ℕ → Bool) (t : Text) → ((x : ℕ) → p x ≡ true → q x ≡ true) → InClass p t → InClass q t
InClass-weaken p q [] w h = tt
InClass-weaken p q (x ∷ t) w h = (w x h.0, InClass-weaken p q t w h.1)

digits-Stops : (t : Text) → InClass is_digit t → Stops (λ c. eqb c b'/') t
digits-Stops [] h = tt
digits-Stops (x ∷ t) h = ground (arith, h.0)

abbrev groups_name_port : Text → Text → Groups
groups_name_port name port =
    (8, []) ∷ (9, []) ∷ (11, []) ∷ (2, port ++ []) ∷ (6, port) ∷ (1, name) ∷ []

name_port-through :
    (x : ℕ) (name port : Text) (l : Rest) (d : Groups)
    → InClass (none_of (codes ":/?#.@")) (x ∷ name)
    → InClass is_digit port
    → l (groups_name_port (x ∷ name) port) [] ≡ some d
    → match uri_regex l [] ((x ∷ name) ++ b':' ∷ port) ≡ some d
unfolding uri_regex match
name_port-through x name port l d h hp e =
    protocol-through (match (then_ slashes (then_ authority relative)) l) [] x name port d
      (InClass-weaken (none_of (codes ":/?#.@")) (none_of (codes ":/?#.")) (x ∷ name)
        (λ y i. ground arith) h)
      (All-append (λ y. none_of (codes "@") y ≡ true) (x ∷ name) (b':' ∷ port)
        (InClass-weaken (none_of (codes ":/?#.@")) (none_of (codes "@")) (x ∷ name)
          (λ y i. ground arith) h)
        (refl, digits))
      (optional-skip (λ y. eqb y b'/') (char b'/') (match (then_ authority relative) l) c port
          (digits-Stops port hp)
        ∙ subst (λ v. match (then_ authority relative) l c v ≡ some d) whole
            (authority-through (match relative l) c port none [] d
              (InClass-weaken is_digit (none_of (codes ":/?#")) port (λ y i. ground arith) hp) tt tt
              (subst (InClass (none_of (codes "@"))) (sym whole) digits)
              (relative-through l _ none none d tt tt e)))
  where
    c : Groups
    c = (1, x ∷ name) ∷ []

    whole : (port ++ []) ++ [] ≡ port
    whole = append-nil (port ++ []) ∙ append-nil port

    digits : InClass (none_of (codes "@")) port
    digits = InClass-weaken is_digit (none_of (codes "@")) port (λ y i. ground arith) hp

-- A name and a port without a protocol, as in localhost:8080, are read the wrong way: the name is the protocol, the port is the
-- host, and there is no port. The name is not empty and has no dot and none of `:/?#@`, and the port is digits.
pub parse_uri-name_port :
    (x : ℕ) (name port : Text)
    → InClass (none_of (codes ":/?#.@")) (x ∷ name)
    → InClass is_digit port
    → let s = (x ∷ name) ++ b':' ∷ port in
      (p : Parts) × (parse_uri s ≡ some p)
      × (p.protocol ≡ x ∷ name)
      × (p.host ≡ port)
      × (p.port ≡ [])
unfolding parse_uri
parse_uri-name_port x name port h hp =
    let s = (x ∷ name) ++ b':' ∷ port in
    let c = groups_name_port (x ∷ name) port in
    (
      parts_of ((0, s) ∷ c),
      rw (exec-through s c (λ l d. name_port-through x name port l d h hp), parse_uri) refl,
      refl,
      refl,
      refl,
    )
