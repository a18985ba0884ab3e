-- ===== src/Parser/Expression.antt =====
-- The expression of decodePacket in socket.io.js as it is written, and the pieces that the code takes from its groups.
pub mod Parts
pub mod Captures
pub mod Search
pub mod Acknowledgement
use socket_io_java.Common.{ℕ, Bool, true, false, Option, none, some, Text, eqb, is_digit}
use socket_io_java.Regex.{Regex, one, then_, maybe, group, Groups, text_of, group_of, star, plus}
use socket_io_java.Parser.Decode.{Pieces, not_colon}

abbrev colon : Regex
colon = one λ c. eqb c b':'

abbrev anything : ℕ → Bool
anything c = true

-- `([^:]+)?:?([\s\S]*)?`.
abbrev end_regex : Regex
end_regex =
    then_ (maybe (group 4 (plus not_colon))) (then_ (maybe colon) (maybe (group 5 (star anything))))

-- `(\+)?:` and what follows.
abbrev plus_regex : Regex
plus_regex = then_ (maybe (group 3 (one λ c. eqb c b'+'))) (then_ colon end_regex)

-- `([0-9]+)?` and what follows.
abbrev id_regex : Regex
id_regex = then_ (maybe (group 2 (plus is_digit))) plus_regex

-- `/([^:]+):([0-9]+)?(\+)?:([^:]+)?:?([\s\S]*)?/`.
unfoldable pub packet_regex : Regex
packet_regex = then_ (group 1 (plus not_colon)) (then_ colon id_regex)

abbrev is_there : Option Text → Bool
is_there none = false
is_there (some t) = true

-- `pieces[1]` to `pieces[5]`, as the code uses them.
abbrev pub pieces_of : Groups → Pieces
pieces_of m = record {
  number = text_of 1 m;
  id = text_of 2 m;
  plus = is_there (group_of 3 m);
  endpoint = text_of 4 m;
  rest = text_of 5 m;
}

abbrev pub map_pieces : Option Groups → Option Pieces
map_pieces none = none
map_pieces (some m) = some (pieces_of m)
