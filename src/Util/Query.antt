-- ===== src/Util/Query.antt =====
-- io.util.chunkQuery, query and merge: the query strings of the addresses.
use socket_io_java.Common.{
  ℕ, Bool, true, false, ◌||◌, Option, none, some, ◌≡◌, refl, ap, ◌∙◌, Text, List, [], ◌∷◌, ◌++◌,
  if◌then◌else◌, arith, eqb, ◌==◌, text_eq, nat_eq, lookup, insert, lookup-insert, codes,
}

-- `text.split(separator)`: at least one piece.
abbrev pub before_first : ℕ → Text → Text
before_first c [] = []
before_first c (x ∷ xs) = if eqb x c then [] else x ∷ before_first c xs

-- `kv[1]`: what stands between the first '=' and the second, undefined without one.
abbrev pub second_piece : ℕ → Text → Option Text
second_piece c [] = none
second_piece c (x ∷ xs) = if eqb x c then some (before_first c xs) else second_piece c xs

abbrev pub cons_first : ℕ → List Text → List Text
cons_first x [] = (x ∷ []) ∷ []
cons_first x (t ∷ ts) = (x ∷ t) ∷ ts

unfoldable pub split : ℕ → Text → List Text
split c [] = [] ∷ []
split c (x ∷ xs) = if eqb x c then [] ∷ split c xs else cons_first x (split c xs)

abbrev pub Params : Type 0
Params = List (Text × Option Text)

-- The loop of chunkQuery; a piece without a name is left out.
unfoldable pub chunks : List Text → Params → Params
unfolding insert
chunks [] q = q
chunks (p ∷ ps) q =
    chunks ps (
      if before_first b'=' p == [] then q else insert (before_first b'=' p) (second_piece b'=' p) q)

unfoldable pub chunk_query : Text → Params
unfolding split chunks
chunk_query qs = chunks (split b'&' qs) []

-- `~indexOf(seen, prop)`.
abbrev pub has_seen : List (Option Text) → Text → Bool
has_seen [] k = false
has_seen (none ∷ vs) k = has_seen vs k
has_seen (some v ∷ vs) k = (v == k) || has_seen vs k

-- util.merge on objects whose properties are texts or undefined.
unfoldable pub merge : Params → Params → List (Option Text) → Params
unfolding insert
merge target [] seen = target
merge target ((k, v) ∷ additional) seen =
    let skipped = merge target additional seen in
    let merged = merge (insert k v target) additional (seen ++ v ∷ []) in
    if has_seen seen k then skipped else merged

abbrev pub value_text : Option Text → Text
value_text none = codes "undefined"
value_text (some t) = t

-- `components.join('&')`.
abbrev pub joined : Params → Text
joined [] = []
joined ((k, v) ∷ []) = k ++ b'=' ∷ value_text v
joined ((k, v) ∷ p ∷ q) = k ++ b'=' ∷ (value_text v ++ b'&' ∷ joined (p ∷ q))

abbrev pub with_mark : Params → Text
with_mark [] = []
with_mark (p ∷ q) = b'?' ∷ joined (p ∷ q)

abbrev pub text_or_empty : Option Text → Text
text_or_empty none = []
text_or_empty (some t) = t

unfoldable pub query : Option Text → Option Text → Text
unfolding chunk_query merge
query base addition =
    with_mark (merge (chunk_query (text_or_empty base)) (chunk_query (text_or_empty addition)) [])

-- The last value that a list gives to a name.
abbrev pub last_value : Text → Params → Option (Option Text)
last_value j [] = none
last_value j ((k, v) ∷ m) = elim (last_value j m) [
  | none ↦ if k == j then some v else none
  | some w ↦ some w
]

abbrev pub or_else : Option (Option Text) → Option (Option Text) → Option (Option Text)
or_else none o = o
or_else (some v) o = some v

-- No name is one of the values that were merged before it.
abbrev pub IsApart : List (Option Text) → Params → Type 0
IsApart seen [] = Unit
IsApart seen ((k, v) ∷ m) = (has_seen seen k ≡ false) × IsApart (seen ++ v ∷ []) m

merge_next :
    (k : Text) (v : Option Text) (target additional : Params) (seen : List (Option Text))
    → has_seen seen k ≡ false
    → merge target ((k, v) ∷ additional) seen
      ≡ merge (insert k v target) additional (seen ++ v ∷ [])
unfolding merge
merge_next k v target additional seen h = next (has_seen seen k) _ _ h
  where
    next : (b : Bool) (x y : Params) → b ≡ false → (if b then x else y) ≡ y
    next b x y e = simp e

or_else_last :
    (o : Option (Option Text)) (b : Bool) (v : Option Text) (own : Option (Option Text))
    → or_else o (if b then some v else own)
      ≡ or_else (elim o [ none ↦ if b then some v else none | some w ↦ some w ]) own
or_else_last none true v own = refl
or_else_last none false v own = refl
or_else_last (some w) b v own = refl

-- merge gives each name the value of the second object, or else that of the first, if no name of the second
-- is one of the values that stand before it there.
lookup-merge :
    (j : Text) (target additional : Params) (seen : List (Option Text))
    → IsApart seen additional
    → lookup j (merge target additional seen) ≡ or_else (last_value j additional) (lookup j target)
unfolding merge
lookup-merge j target [] seen h = refl
lookup-merge j target ((k, v) ∷ m) seen h =
    ap (lookup j) (merge_next k v target m seen h.0)
    ∙ lookup-merge j (insert k v target) m (seen ++ v ∷ []) h.1
    ∙ ap (or_else (last_value j m)) (lookup-insert k j v target)
    ∙ or_else_last (last_value j m) (k == j) v (lookup j target)

-- A name that is the value of the name before it is not merged, whatever its own value.
merge_loses :
    (a b : Text) (v : Option Text) (target : Params)
    → merge target ((a, some b) ∷ (b, v) ∷ []) [] ≡ insert a (some b) target
unfolding merge
merge_loses a b v target = ground (arith, text_eq.beq_iff b b)
