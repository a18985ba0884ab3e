-- ===== src/Regex.antt =====
-- The regular expressions that socket.io.js has, read as ECMAScript reads them: a backtracking search in which a group
-- keeps what it matched last. The expressions of parseUri and decodePacket are values of this type.
pub mod Laws
pub mod Runs
use socket_io_java.Common.{
  ℕ, ◌-◌, Bool, true, false, Option, none, some, Text, List, [], ◌∷◌, if◌then◌else◌, eqb, length,
  take,
}

-- `one p` is a class. `many p a` is `(?:[p](?!a))*`, greedy; `maybe r` is `(?:r)?`, greedy; `unless r` is `(?!r)`; `finish`
-- is `$`; `nothing` never matches.
pub data Regex : Type 0 where
  one : (ℕ → Bool) → Regex
  many : (ℕ → Bool) → Regex → Regex
  then_ : Regex → Regex → Regex
  either : Regex → Regex → Regex
  maybe : Regex → Regex
  group : ℕ → Regex → Regex
  unless : Regex → Regex
  finish nothing : Regex

-- What the groups matched, the last one first.
abbrev pub Groups : Type 0
Groups = List (ℕ × Text)

-- What is still to be matched, at a place of the text: what follows it.
abbrev pub Rest : Type 0
Rest = Groups → Text → Option Groups

-- The text from one place to a later one.
abbrev pub between : Text → Text → Text
between s t = take (length s - length t) s

abbrev pub ends : Rest
ends c s = some c

abbrev pub is_none : Option Groups → Bool
is_none none = true
is_none (some c) = false

abbrev pub or_else : Option Groups → Option Groups → Option Groups
or_else none o = o
or_else (some c) o = some c

-- An optional part that matches nothing counts as left out.
abbrev pub unless_empty : Text → Rest → Rest
unless_empty s k c t = if eqb (length s) (length t) then none else k c t

-- The greedy loop, over a test of what follows each code unit.
unfoldable pub repeat : (ℕ → Bool) → (Text → Bool) → Rest → Groups → Text → Option Groups
repeat p clear k c [] = k c []
repeat p clear k c (x ∷ s) =
    let more = repeat p clear k c s in
    if p x then (if clear s then or_else more (k c (x ∷ s)) else k c (x ∷ s)) else k c (x ∷ s)

unfoldable pub match : Regex → Rest → Groups → Text → Option Groups
unfolding repeat
match (one p) k c [] = none
match (one p) k c (x ∷ s) = if p x then k c s else none
match (many p a) k c s = repeat p (λ t. is_none (match a ends c t)) k c s
match (then_ r q) k c s = match r (match q k) c s
match (either r q) k c s = or_else (match r k c s) (match q k c s)
match (maybe r) k c s = or_else (match r (unless_empty s k) c s) (k c s)
match (group n r) k c s = match r (λ d t. k ((n, between s t) ∷ d) t) c s
match (unless r) k c s = if is_none (match r ends c s) then k c s else none
match finish k c [] = k c []
match finish k c (x ∷ s) = none
match nothing k c s = none

-- `expression.exec(text)` for an expression that begins with `^`.
unfoldable pub exec : Regex → Text → Option Groups
unfolding match
exec r s = match (group 0 r) ends [] s

-- The same for one that begins anywhere: the leftmost match.
unfoldable pub search : Regex → Text → Option Groups
unfolding exec
search r [] = exec r []
search r (x ∷ s) = or_else (exec r (x ∷ s)) (search r s)

-- What a group matched; a group that took no part is undefined.
abbrev pub group_of : ℕ → Groups → Option Text
group_of n [] = none
group_of n ((m, t) ∷ c) = if eqb m n then some t else group_of n c

-- `m[n] || ''`.
abbrev pub text_of : ℕ → Groups → Text
text_of n [] = []
text_of n ((m, t) ∷ c) = if eqb m n then t else text_of n c

-- `[p]*` and `[p]+`.
abbrev pub star : (ℕ → Bool) → Regex
star p = many p nothing

abbrev pub plus : (ℕ → Bool) → Regex
plus p = then_ (one p) (star p)
