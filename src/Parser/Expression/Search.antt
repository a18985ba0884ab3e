-- ===== src/Parser/Expression/Search.antt =====
-- `data.match(regexp)` of decodePacket against the reader of packets.
use socket_io_java.Common.{
  ℕ, Bool, true, false, Option, none, some, ◌≡◌, refl, sym, ap, ◌∙◌, arith, Text, [], ◌∷◌, ◌++◌,
  if◌then◌else◌, eqb, text_eq, ◌==◌, is_digit, Stops, take_while, drop_while, drop_while-Stops,
  append_assoc, append-nil, inl, inr, Bool-cases, Option-cases,
}
use socket_io_java.Regex.{then_, Groups, Rest, exec, search, match, between, or_else}
use socket_io_java.Regex.Runs.{Total, with_group, run-exact}
use socket_io_java.Parser.Decode.{
  Pieces, not_colon, starts_with, skip, match_end, match_plus, match_id, find_pieces,
  first_of_options,
}
use socket_io_java.Parser.Expression.{colon, end_regex, id_regex, packet_regex, map_pieces}
use socket_io_java.Parser.Expression.Parts.{end_lem, with_plus, after_plus, id_lem}
use socket_io_java.Parser.Expression.Captures.{pieces-groups}

-- Behind the first colon, for what is left of the text afterwards.
abbrev keep : Text → Rest
keep s d t = some ((0, between s t) ∷ d)

keep-Total : (s : Text) → Total (keep s)
keep-Total s c t = ((0, between s t) ∷ c, refl)

plus_pieces :
    (s n i u : Text)
    → map_pieces (after_plus (match end_regex (keep s)) (with_group 2 i ((1, n) ∷ [])) u)
      ≡ match_plus n i u
unfolding match_plus match_end
plus_pieces s n i u =
    elim (Bool-cases (starts_with b':' (skip b'+' u)))
      as (λ _.
        map_pieces (after_plus (match end_regex (keep s)) (with_group 2 i ((1, n) ∷ [])) u)
        ≡ match_plus n i u) [
          | inl e ↦
              let v = skip b':' (skip b'+' u) in
              rw e (
                ap map_pieces
                  (end_lem (keep s) (with_plus u (with_group 2 i ((1, n) ∷ []))) v (keep-Total s))
                ∙ ap some (
                    pieces-groups (between s []) n i u (take_while not_colon v)
                      (skip b':' (drop_while not_colon v))))
          | inr e ↦ rw e refl
        ]

id_pieces : (s n cs : Text) → map_pieces (match id_regex (keep s) ((1, n) ∷ []) cs) ≡ match_id n cs
unfolding match_id
id_pieces s n cs =
    ap map_pieces (id_lem (keep s) ((1, n) ∷ []) cs)
    ∙ plus_pieces s n (take_while is_digit cs) (drop_while is_digit cs)

abbrev at_colon : Text → Text → Option Pieces
at_colon t [] = none
at_colon t (y ∷ cs) = match_id t cs

colon_pieces :
    (s n d : Text)
    → Stops not_colon d
    → map_pieces (match (then_ colon id_regex) (keep s) ((1, n) ∷ []) d) ≡ at_colon n d
unfolding match
colon_pieces s n [] h = refl
colon_pieces s n (y ∷ cs) h = rw is_colon (id_pieces s n cs)
  where
    is_colon : eqb y b':' ≡ true
    is_colon = ground arith

-- The first group takes the whole run, since no colon is in it.
exec_lem :
    (x : ℕ) (s : Text)
    → not_colon x ≡ true
    → map_pieces (exec packet_regex (x ∷ s))
      ≡ at_colon (x ∷ take_while not_colon s) (drop_while not_colon s)
unfolding exec match packet_regex
exec_lem x s h =
    ap map_pieces (
      run-exact not_colon 1 (match (then_ colon id_regex) (keep (x ∷ s))) [] x s
        (λ d y t e. colon_none d y t e)
      ∙ rw h refl)
    ∙ colon_pieces (x ∷ s) (x ∷ take_while not_colon s) (drop_while not_colon s)
        (drop_while-Stops not_colon s)
  where
    colon_none :
        (d : Groups) (y : ℕ) (t : Text)
        → not_colon y ≡ true
        → match (then_ colon id_regex) (keep (x ∷ s)) d (y ∷ t) ≡ none
    colon_none d y t e = rw isnt refl
      where
        isnt : eqb y b':' ≡ false
        isnt = ground arith

exec-none : (x : ℕ) (s : Text) → not_colon x ≡ false → exec packet_regex (x ∷ s) ≡ none
unfolding exec match packet_regex
exec-none x s h = rw h refl

-- What the search finds from the start of a run.
abbrev found : Text → Text → Option Pieces
found t [] = none
found t (y ∷ cs) =
    if t == [] then find_pieces [] cs else first_of_options (match_id t cs) (find_pieces [] cs)

find_pieces-found :
    (run s : Text)
    → find_pieces run s ≡ found (run ++ take_while not_colon s) (drop_while not_colon s)
unfolding find_pieces
find_pieces-found run [] = refl
find_pieces-found run (c ∷ cs) =
    elim (Bool-cases (eqb c b':'))
      as (λ _.
        find_pieces run (c ∷ cs)
        ≡ found (run ++ take_while not_colon (c ∷ cs)) (drop_while not_colon (c ∷ cs))) [
          | inl e ↦ rw e (rw (append-nil run) refl)
          | inr e ↦ rw e (
              find_pieces-found (run ++ c ∷ []) cs
              ∙ ap (λ t. found t (drop_while not_colon cs))
                  (append_assoc run (c ∷ []) (take_while not_colon cs)))
        ]

map-or_else :
    (o q : Option Groups)
    → map_pieces (or_else o q) ≡ first_of_options (map_pieces o) (map_pieces q)
map-or_else none q = refl
map-or_else (some c) q = refl

match_id-none : (n m cs : Text) → match_id n cs ≡ none → match_id m cs ≡ none
unfolding match_id match_plus
match_id-none n m cs h =
    elim (Bool-cases (starts_with b':' (skip b'+' (drop_while is_digit cs))))
      as (λ _. match_id m cs ≡ none) [ inl e ↦ cc | inr e ↦ rw e refl ]

-- A later start in the same run finds nothing that the first start does not.
found-longer :
    (x : ℕ) (t d : Text) → first_of_options (at_colon (x ∷ t) d) (found t d) ≡ found (x ∷ t) d
found-longer x t [] = refl
found-longer x t (y ∷ cs) =
    elim (Option-cases (match_id (x ∷ t) cs))
      as (λ _. first_of_options (match_id (x ∷ t) cs) (found t (y ∷ cs)) ≡ found (x ∷ t) (y ∷ cs)) [
        | inl e ↦ rw e (either (t == []) _ (match_id t cs) (match_id-none (x ∷ t) t cs e))
        | inr (p, e) ↦ rw e refl
      ]
  where
    either :
        (b : Bool) (q o : Option Pieces) → o ≡ none → (if b then q else first_of_options o q) ≡ q
    either true q o h = refl
    either false q o h = ap (λ r. first_of_options r q) h

both : {o o' q q' : Option Pieces} → o ≡ o' → q ≡ q' → first_of_options o q ≡ first_of_options o' q'
both h k = cc

search-step :
    (x : ℕ) (s : Text)
    → map_pieces (search packet_regex s) ≡ found (take_while not_colon s) (drop_while not_colon s)
    → first_of_options (map_pieces (exec packet_regex (x ∷ s))) (map_pieces (search packet_regex s))
      ≡ found (take_while not_colon (x ∷ s)) (drop_while not_colon (x ∷ s))
search-step x s later = elim (Bool-cases (not_colon x)) [
  | inl e ↦
      both (exec_lem x s e) later
      ∙ found-longer x (take_while not_colon s) (drop_while not_colon s)
      ∙ rw e refl
  | inr e ↦
      both (ap map_pieces (exec-none x s e)) (later ∙ sym (find_pieces-found [] s)) ∙ rw e refl
]

search-found :
    (s : Text)
    → map_pieces (search packet_regex s) ≡ found (take_while not_colon s) (drop_while not_colon s)
unfolding search exec match packet_regex
search-found [] = refl
search-found (x ∷ s) =
    map-or_else (exec packet_regex (x ∷ s)) (search packet_regex s)
    ∙ search-step x s (search-found s)

-- The reader of packets finds what a search for the expression finds.
pub find_pieces-search : (s : Text) → find_pieces [] s ≡ map_pieces (search packet_regex s)
find_pieces-search s = find_pieces-found [] s ∙ sym (search-found s)
