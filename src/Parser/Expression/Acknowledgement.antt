-- ===== src/Parser/Expression/Acknowledgement.antt =====
-- The expression for acknowledgements of decodePacket against its reader.
use socket_io_java.Common.{
  ℕ, Bool, true, Option, none, some, ◌≡◌, refl, sym, ap, ◌∙◌, Text, [], ◌∷◌, if◌then◌else◌, eqb,
  text_eq, ◌==◌, is_digit, take_while, drop_while, take_while-drop_while, take_while-InClass,
  drop_while-Stops, inl, inr, Bool-cases,
}
use mathlib.Core.Path.{subst}
use socket_io_java.Value.{Value, arr, nil}
use socket_io_java.Regex.{
  Regex, one, then_, maybe, group, Groups, Rest, exec, search, match, text_of, star, plus, between,
  or_else,
}
use socket_io_java.Regex.Laws.{
  star-through, group-through, plus-through, between-append, unless_empty-shorter, match-IsSome,
}
use socket_io_java.Regex.Runs.{Total}
use socket_io_java.Parser.Packet.{Packet}
use socket_io_java.Parser.Encode.{Json}
use socket_io_java.Parser.Decode.{skip, find_pieces, not_line_end, args_or, decode_ack}
use socket_io_java.Parser.Expression.{packet_regex, map_pieces}
use socket_io_java.Parser.Expression.Parts.{or_else-IsSome}
use socket_io_java.Parser.Expression.Search.{find_pieces-search}

-- `(\+)?(.*)`.
abbrev text_regex : Regex
text_regex = then_ (maybe (group 2 (one λ c. eqb c b'+'))) (group 3 (star not_line_end))

-- `/^([0-9]+)(\+)?(.*)/`.
unfoldable pub ack_regex : Regex
ack_regex = then_ (group 1 (plus is_digit)) text_regex

-- What the code does with the groups.
abbrev pub ack_pieces : Json → Packet → Option Groups → Packet
ack_pieces js p none = p
ack_pieces js p (some m) =
    let none_yet : Option Value = some (arr nil) in
    record p {
      ack_id = some (text_of 1 m);
      args = (if text_of 3 m == [] then none_yet else args_or (js.parse (text_of 3 m)) none_yet);
    }

-- `([p]+)` and `([p]*)` take the whole run, if what follows matches everywhere.
run-Total :
    (p : ℕ → Bool) (n : ℕ) (k : Rest) (c : Groups) (x : ℕ) (s : Text)
    → p x ≡ true
    → Total k
    → match (group n (plus p)) k c (x ∷ s) ≡ k ((n, x ∷ take_while p s) ∷ c) (drop_while p s)
run-Total p n k c x s e h =
    let (d, f) = h ((n, x ∷ take_while p s) ∷ c) (drop_while p s) in
    subst (λ v. match (group n (plus p)) k c (x ∷ v) ≡ some d) (take_while-drop_while p s)
      (group-through (plus p) n k c c (x ∷ take_while p s) (drop_while p s) (some d)
        (λ l g.
          plus-through p l c x (take_while p s) (drop_while p s) d (e, take_while-InClass p s)
            (drop_while-Stops p s) g)
        f)
    ∙ sym f

star-Total :
    (p : ℕ → Bool) (n : ℕ) (k : Rest) (c : Groups) (s : Text)
    → Total k
    → match (group n (star p)) k c s ≡ k ((n, take_while p s) ∷ c) (drop_while p s)
star-Total p n k c s h =
    let (d, f) = h ((n, take_while p s) ∷ c) (drop_while p s) in
    subst (λ v. match (group n (star p)) k c v ≡ some d) (take_while-drop_while p s)
      (group-through (star p) n k c c (take_while p s) (drop_while p s) (some d)
        (λ l g.
          star-through p l c (take_while p s) (drop_while p s) d (take_while-InClass p s)
            (drop_while-Stops p s) g)
        f)
    ∙ sym f

abbrev with_sign : Text → Groups → Groups
with_sign [] c = c
with_sign (x ∷ s) c = if eqb x b'+' then (2, x ∷ []) ∷ c else c

sign-Total :
    (k : Rest) (c : Groups) (s : Text)
    → Total k
    → match (maybe (group 2 (one λ c. eqb c b'+'))) k c s ≡ k (with_sign s c) (skip b'+' s)
unfolding match
sign-Total k c [] h = refl
sign-Total k c (x ∷ s) h =
    elim (Bool-cases (eqb x b'+'))
      as (λ _.
        match (maybe (group 2 (one λ c. eqb c b'+'))) k c (x ∷ s)
        ≡ k (with_sign (x ∷ s) c) (skip b'+' (x ∷ s))) [
          | inl e ↦ rw e (
              ap (λ o. or_else o (k c (x ∷ s)))
                (unless_empty-shorter x [] s k ((2, between (x ∷ s) s) ∷ c))
              ∙ or_else-IsSome (k ((2, between (x ∷ s) s) ∷ c) s) _ (h _ s)
              ∙ ap (λ w. k ((2, w) ∷ c) s) (between-append (x ∷ []) s))
          | inr e ↦ rw e refl
        ]

abbrev keep : Text → Rest
keep s d t = some ((0, between s t) ∷ d)

keep-Total : (s : Text) → Total (keep s)
keep-Total s c t = ((0, between s t) ∷ c, refl)

sign_text : (s : Text) (c : Groups) → text_of 1 (with_sign s c) ≡ text_of 1 c
sign_text [] c = refl
sign_text (x ∷ s) c =
    elim (Bool-cases (eqb x b'+')) as (λ _. text_of 1 (with_sign (x ∷ s) c) ≡ text_of 1 c) [
      | inl e ↦ rw e refl
      | inr e ↦ rw e refl
    ]

ack_groups :
    (x : ℕ) (s : Text)
    → is_digit x ≡ true
    → exec ack_regex (x ∷ s)
      ≡ some (
          (0, between (x ∷ s) (drop_while not_line_end (skip b'+' (drop_while is_digit s))))
          ∷ (3, take_while not_line_end (skip b'+' (drop_while is_digit s)))
          ∷ with_sign (drop_while is_digit s) ((1, x ∷ take_while is_digit s) ∷ []))
unfolding exec match ack_regex
ack_groups x s e =
    let k = keep (x ∷ s) in
    let c : Groups = (1, x ∷ take_while is_digit s) ∷ [] in
    let u = drop_while is_digit s in
    let text_group = group 3 (star not_line_end) in
    run-Total is_digit 1 (match text_regex k) [] x s e
      (λ d t. match-IsSome text_regex k d t refl (keep-Total (x ∷ s)))
    ∙ sign-Total (match text_group k) c u
        (λ d t. match-IsSome text_group k d t refl (keep-Total (x ∷ s)))
    ∙ star-Total not_line_end 3 k (with_sign u c) (skip b'+' u) (keep-Total (x ∷ s))

abbrev acknowledged : Json → Packet → Text → Text → Packet
acknowledged js p id t =
    let none_yet : Option Value = some (arr nil) in
    record p {
      ack_id = some id;
      args = (if t == [] then none_yet else args_or (js.parse t) none_yet);
    }

decode_ack-digit :
    (js : Json) (p : Packet) (x : ℕ) (s : Text)
    → is_digit x ≡ true
    → decode_ack js p (x ∷ s)
      ≡ acknowledged js p
          (x ∷ take_while is_digit s)
          (take_while not_line_end (skip b'+' (drop_while is_digit s)))
unfolding decode_ack
decode_ack-digit js p x s e = rw e refl

decode_ack-exec :
    (js : Json) (p : Packet) (s : Text) → decode_ack js p s ≡ ack_pieces js p (exec ack_regex s)
unfolding decode_ack exec match ack_regex
decode_ack-exec js p [] = refl
decode_ack-exec js p (x ∷ s) =
    elim (Bool-cases (is_digit x))
      as (λ _. decode_ack js p (x ∷ s) ≡ ack_pieces js p (exec ack_regex (x ∷ s))) [
        | inl e ↦
            let w = take_while not_line_end (skip b'+' (drop_while is_digit s)) in
            decode_ack-digit js p x s e
            ∙ sym (
                ap (ack_pieces js p) (ack_groups x s e)
                ∙ ap (λ t. acknowledged js p t w)
                    (sign_text (drop_while is_digit s) ((1, x ∷ take_while is_digit s) ∷ [])))
        | inr e ↦ rw e refl
      ]

-- The readers of packets and of acknowledgements find in every text what backtracking searches for the two expressions of
-- decodePacket find.
pub expressions_agree :
    (js : Json) (p : Packet) (s : Text)
    → (find_pieces [] s ≡ map_pieces (search packet_regex s))
      × (decode_ack js p s ≡ ack_pieces js p (exec ack_regex s))
expressions_agree js p s = (find_pieces-search s, decode_ack-exec js p s)
