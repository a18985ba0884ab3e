-- ===== src/Util/Address/Segments.antt =====
-- The protocol and the authority of an address under the expression of parseUri.
use mathlib.Core.Path.{subst}
use socket_io_java.Common.{
  ℕ, Bool, true, false, ◌||◌, Option, none, some, ◌≡◌, ◌⊎◌, refl, sym, ap, ◌∙◌, arith, Text, [],
  ◌∷◌, ◌++◌, codes, eqb, if◌then◌else◌, is_digit, InClass, Stops, append_assoc, inl, inr,
}
use socket_io_java.Regex.{
  Regex, unless_empty, then_, maybe, group, unless, Groups, Rest, ends, is_none, match, star, plus,
}
use socket_io_java.Regex.Laws.{
  match-none, star-through, plus-through, group-through, maybe-skip, optional-through,
  optional-skip,
}
use socket_io_java.Util.Address.{
  none_of, char, login, protocol_part, slashes, user_part, host_part, port_part, authority,
}

abbrev pub at_sign : ℕ → Bool
at_sign = none_of (codes "@")

at_sign-tail : (x : ℕ) (s : Text) → InClass at_sign (x ∷ s) → InClass at_sign s
at_sign-tail x s h = h.1

char_at-none :
    (k : Rest) (c : Groups) (s : Text) → InClass at_sign s → match (char b'@') k c s ≡ none
unfolding match
char_at-none k c [] h = refl
char_at-none k c (x ∷ s) h = ground (arith, h.0)

-- Without an `@` there is no login, nor a user.
pub before_at-none :
    (r : Regex) (k : Rest) (c : Groups) (s : Text)
    → InClass at_sign s
    → match (then_ r (char b'@')) k c s ≡ none
unfolding match
before_at-none r k c s h =
    match-none (InClass at_sign) at_sign-tail r (match (char b'@') k) c s
      (λ d t i. char_at-none k d t i) h

abbrev scheme_name : Regex
scheme_name = then_ (group 1 (plus (none_of (codes ":/?#.")))) (char b':')

abbrev scheme_colon : Regex
scheme_colon = then_ (unless (then_ login (char b'@'))) scheme_name

pub protocol-through :
    (k : Rest) (c : Groups) (x : ℕ) (t u : Text) (d : Groups)
    → InClass (none_of (codes ":/?#.")) (x ∷ t)
    → InClass at_sign ((x ∷ t) ++ b':' ∷ u)
    → k ((1, x ∷ t) ∷ c) u ≡ some d
    → match protocol_part k c ((x ∷ t) ++ b':' ∷ u) ≡ some d
unfolding match
protocol-through k c x t u d h a e =
    subst (λ v. match protocol_part k c (x ∷ v) ≡ some d) joined
      (optional-through scheme_colon k c ((1, x ∷ t) ∷ c) x (t ++ b':' ∷ []) u d
        (λ l f. subst (λ v. match scheme_colon l c (x ∷ v) ≡ some d) (sym joined) (scheme l f)) e)
  where
    joined : (t ++ b':' ∷ []) ++ u ≡ t ++ b':' ∷ u
    joined = append_assoc t (b':' ∷ []) u

    scheme :
        (l : Rest)
        → l ((1, x ∷ t) ∷ c) u ≡ some d
        → match scheme_colon l c (x ∷ (t ++ b':' ∷ u)) ≡ some d
    scheme l f =
        ap (λ o. if is_none o then match scheme_name l c (x ∷ (t ++ b':' ∷ u)) else none)
          (before_at-none login ends c (x ∷ (t ++ b':' ∷ u)) a)
        ∙ group-through (plus (none_of (codes ":/?#."))) 1 (match (char b':') l) c c (x ∷ t)
            (b':' ∷ u) (some d)
            (λ m. plus-through (none_of (codes ":/?#.")) m c x t (b':' ∷ u) d h refl) f

host-through :
    (k : Rest) (c : Groups) (t u : Text) (d : Groups)
    → InClass (none_of (codes ":/?#")) t
    → Stops (none_of (codes ":/?#")) u
    → k ((6, t) ∷ c) u ≡ some d
    → match host_part k c (t ++ u) ≡ some d
host-through k c t u d h s e =
    group-through (star (none_of (codes ":/?#"))) 6 k c c t u (some d)
      (λ l. star-through (none_of (codes ":/?#")) l c t u d h s) e

abbrev pub port_text : Option Text → Text
port_text none = []
port_text (some t) = b':' ∷ t

abbrev pub port_groups : Option Text → Groups → Groups
port_groups none c = c
port_groups (some t) c = (7, t) ∷ c

abbrev pub IsPort : Option Text → Type 0
IsPort none = Unit {0}
IsPort (some t) = InClass is_digit t

-- Behind the authority: the end, the path or the query.
abbrev pub IsBehind : Text → Type 0
IsBehind [] = Unit {0}
IsBehind (x ∷ u) = (eqb x b'/' || eqb x b'?') ≡ true

pub behind-Stops :
    (p : ℕ → Bool) (u : Text) → p b'/' ≡ false → p b'?' ≡ false → IsBehind u → Stops p u
behind-Stops p [] h k b = tt
behind-Stops p (x ∷ u) h k b = elim (which x b) [
  | inl e ↦ subst (λ y. p y ≡ false) (sym e) h
  | inr e ↦ subst (λ y. p y ≡ false) (sym e) k
]
  where
    which : (x : ℕ) → (eqb x b'/' || eqb x b'?') ≡ true → (x ≡ b'/') ⊎ (x ≡ b'?')
    which x b = ground arith

port-through :
    (k : Rest) (c : Groups) (o : Option Text) (u : Text) (d : Groups)
    → IsPort o
    → IsBehind u
    → k (port_groups o c) u ≡ some d
    → match port_part k c (port_text o ++ u) ≡ some d
unfolding match
port-through k c none u d h b e =
    optional-skip (λ x. eqb x b':') (group 7 (star is_digit)) k c u
      (behind-Stops (λ x. eqb x b':') u refl refl b)
    ∙ e
port-through k c (some t) u d h b e =
    optional-through (then_ (char b':') (group 7 (star is_digit))) k c ((7, t) ∷ c) b':' t u d
      (λ l.
        group-through (star is_digit) 7 l c c t u (some d)
          (λ m. star-through is_digit m c t u d h (behind-Stops is_digit u refl refl b)))
      e

host-Stops :
    (o : Option Text) (u : Text) → IsBehind u → Stops (none_of (codes ":/?#")) (port_text o ++ u)
host-Stops none u b = behind-Stops (none_of (codes ":/?#")) u refl refl b
host-Stops (some t) u b = refl

abbrev login_part : Regex
login_part = maybe (then_ user_part (char b'@'))

pub authority-through :
    (k : Rest) (c : Groups) (h : Text) (o : Option Text) (u : Text) (d : Groups)
    → InClass (none_of (codes ":/?#")) h
    → IsPort o
    → IsBehind u
    → InClass at_sign ((h ++ port_text o) ++ u)
    → k ((2, h ++ port_text o) ∷ port_groups o ((6, h) ∷ c)) u ≡ some d
    → match authority k c ((h ++ port_text o) ++ u) ≡ some d
unfolding match
authority-through k c h o u d hh ho b a e =
    group-through (then_ login_part (then_ host_part port_part)) 2 k c (port_groups o ((6, h) ∷ c))
      (h ++ port_text o) u (some d)
      (λ l f.
        maybe-skip (then_ user_part (char b'@')) (match (then_ host_part port_part) l) c
          ((h ++ port_text o) ++ u)
          (before_at-none user_part
            (unless_empty ((h ++ port_text o) ++ u) (match (then_ host_part port_part) l)) c
            ((h ++ port_text o) ++ u) a)
        ∙ subst (λ v. match (then_ host_part port_part) l c v ≡ some d)
            (sym (append_assoc h (port_text o) u))
            (host-through (match port_part l) c h (port_text o ++ u) d hh (host-Stops o u b)
              (port-through l ((6, h) ∷ c) o u d ho b f)))
      e

pub slashes-through :
    (k : Rest) (c : Groups) (u : Text) (d : Groups)
    → k c u ≡ some d
    → match slashes k c (b'/' ∷ b'/' ∷ u) ≡ some d
unfolding match
slashes-through k c u d e =
    optional-through (then_ (char b'/') (char b'/')) k c c b'/' (b'/' ∷ []) u d (λ m g. g) e
