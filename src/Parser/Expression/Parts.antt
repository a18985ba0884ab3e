-- ===== src/Parser/Expression/Parts.antt =====
-- What the parts of the expression of decodePacket match, behind the first group.
use socket_io_java.Common.{
  ℕ, true, false, Option, none, some, ◌≡◌, refl, sym, ap, ◌∙◌, arith, Text, [], ◌∷◌, if◌then◌else◌,
  eqb, text_eq, is_digit, InClass, take_while, drop_while, append-nil, inl, inr, Bool-cases,
}
use mathlib.Core.Path.{subst}
use socket_io_java.Regex.{one, then_, maybe, group, Groups, Rest, match, star, or_else}
use socket_io_java.Regex.Laws.{
  star-through, between-append, group-through, optional-through, IsSome, unless_empty-shorter,
  match-IsSome,
}
use socket_io_java.Regex.Runs.{Total, with_group, optional_run-exact, optional_run-Total, or_none}
use socket_io_java.Parser.Decode.{not_colon, starts_with, skip}
use socket_io_java.Parser.Expression.{colon, anything, end_regex, plus_regex, id_regex}

rest_lem :
    (k : Rest) (c : Groups) (s : Text)
    → Total k
    → match (maybe (group 5 (star anything))) k c s ≡ k (with_group 5 s c) []
unfolding match
rest_lem k c [] h = refl
rest_lem k c (x ∷ s) h =
    let (d, e) = h ((5, x ∷ s) ∷ c) [] in
    subst (λ v. match (maybe (group 5 (star anything))) k c (x ∷ v) ≡ some d) (append-nil s)
      (optional-through (group 5 (star anything)) k c _ x s [] d
        (λ l f.
          group-through (star anything) 5 l c c (x ∷ s) [] (some d)
            (λ m g. star-through anything m c (x ∷ s) [] d (all (x ∷ s)) tt g) f)
        e)
    ∙ sym e
  where
    all : (t : Text) → InClass anything t
    all [] = tt
    all (y ∷ t) = (refl, all t)

rest-Total : (k : Rest) → Total k → Total (match (maybe (group 5 (star anything))) k)
rest-Total k h c s = match-IsSome (maybe (group 5 (star anything))) k c s refl h

pub or_else-IsSome : (o q : Option Groups) → IsSome o → or_else o q ≡ o
or_else-IsSome none q (d, e) = cc
or_else-IsSome (some c) q h = refl

colon_lem :
    (k : Rest) (c : Groups) (s : Text) → Total k → match (maybe colon) k c s ≡ k c (skip b':' s)
unfolding match
colon_lem k c [] h = refl
colon_lem k c (x ∷ s) h =
    elim (Bool-cases (eqb x b':'))
      as (λ _. match (maybe colon) k c (x ∷ s) ≡ k c (skip b':' (x ∷ s))) [
        | inl e ↦ rw e (
            ap (λ o. or_else o (k c (x ∷ s))) (unless_empty-shorter x [] s k c)
            ∙ or_else-IsSome (k c s) _ (h c s))
        | inr e ↦ rw e refl
      ]

-- The end matches everywhere, and keeps what the reader keeps.
pub end_lem :
    (k : Rest) (c : Groups) (s : Text)
    → Total k
    → match end_regex k c s
      ≡ k
          (with_group 5
            (skip b':' (drop_while not_colon s))
            (with_group 4 (take_while not_colon s) c))
          []
unfolding match
end_lem k c s h =
    optional_run-Total not_colon 4 _ c s
      (λ d t. match-IsSome (then_ (maybe colon) (maybe (group 5 (star anything)))) k d t refl h)
    ∙ colon_lem _ (with_group 4 (take_while not_colon s) c) (drop_while not_colon s)
        (rest-Total k h)
    ∙ rest_lem k (with_group 4 (take_while not_colon s) c) (skip b':' (drop_while not_colon s)) h

abbrev pub with_plus : Text → Groups → Groups
with_plus [] c = c
with_plus (x ∷ s) c = if eqb x b'+' then (3, x ∷ []) ∷ c else c

pub colon_after :
    (m : Rest) (c : Groups) (s : Text)
    → match colon m c s ≡ (if starts_with b':' s then m c (skip b':' s) else none)
unfolding match
colon_after m c [] = refl
colon_after m c (x ∷ s) =
    elim (Bool-cases (eqb x b':'))
      as (λ _. match colon m c (x ∷ s) ≡ (if eqb x b':' then m c (skip b':' (x ∷ s)) else none)) [
        | inl e ↦ rw e refl
        | inr e ↦ rw e refl
      ]

abbrev pub after_plus : Rest → Groups → Text → Option Groups
after_plus m c s =
    if starts_with b':' (skip b'+' s) then m (with_plus s c) (skip b':' (skip b'+' s)) else none

plus_colon_lem :
    (m : Rest) (c : Groups) (s : Text)
    → match (maybe (group 3 (one λ c. eqb c b'+'))) (match colon m) c s ≡ after_plus m c s
unfolding match
plus_colon_lem m c [] = refl
plus_colon_lem m c (x ∷ s) =
    elim (Bool-cases (eqb x b'+'))
      as (λ _.
        match (maybe (group 3 (one λ c. eqb c b'+'))) (match colon m) c (x ∷ s)
        ≡ after_plus m c (x ∷ s)) [
          | inl e ↦ rw e (
              ap (λ o. or_else o (match colon m c (x ∷ s)))
                (unless_empty-shorter x [] s (match colon m) _)
              ∙ ap (or_else _) (not_both e)
              ∙ or_none _
              ∙ ap (λ w. match colon m ((3, w) ∷ c) s) (between-append (x ∷ []) s)
              ∙ colon_after m _ s)
          | inr e ↦ rw e (colon_after m c (x ∷ s))
        ]
  where
    not_both : eqb x b'+' ≡ true → match colon m c (x ∷ s) ≡ none
    not_both e = rw (not_colon_then e) refl
      where
        not_colon_then : eqb x b'+' ≡ true → eqb x b':' ≡ false
        not_colon_then e = ground arith

plus_lem :
    (k : Rest) (c : Groups) (s : Text) → match plus_regex k c s ≡ after_plus (match end_regex k) c s
unfolding match
plus_lem k c s = plus_colon_lem (match end_regex k) c s

pub after_plus-digit :
    (m : Rest) (c : Groups) (y : ℕ) (t : Text) → is_digit y ≡ true → after_plus m c (y ∷ t) ≡ none
after_plus-digit m c y t e = rw not_plus (rw not_a_colon refl)
  where
    not_plus : eqb y b'+' ≡ false
    not_plus = ground arith

    not_a_colon : eqb y b':' ≡ false
    not_a_colon = ground arith

pub id_lem :
    (k : Rest) (c : Groups) (s : Text)
    → match id_regex k c s
      ≡ after_plus
          (match end_regex k)
          (with_group 2 (take_while is_digit s) c)
          (drop_while is_digit s)
unfolding match
id_lem k c s =
    optional_run-exact is_digit 2 (match plus_regex k) c s
      (λ d y t e. plus_lem k d (y ∷ t) ∙ after_plus-digit (match end_regex k) d y t e)
    ∙ plus_lem k (with_group 2 (take_while is_digit s) c) (drop_while is_digit s)
