-- ===== src/Parser/Decode.antt =====
-- parser.decodePacket, with its regular expressions as recursive readers.
use socket_io_java.Common.{
  ℕ, Bool, false, not, ◌||◌, Option, none, some, List, [], ◌∷◌, ◌++◌, Text, codes, split, is_digit,
  take_while, drop_while, get_elem?, if◌then◌else◌, eqb, text_eq, ◌==◌,
}
use socket_io_java.Value.{Value, arr, str, nil, Read, read, throws, value, is_set}
use socket_io_java.Util.Indexing.{property}
use socket_io_java.Parser.Packet.{
  Packet, Kind, packets, reasons, advices, with_data, receipt, no_packet,
}
use socket_io_java.Parser.Encode.{Json}

-- The groups 1 to 5 of the expression for packets. A group that takes no part reads as empty, since
-- the code only uses it as `pieces[n] || ''` or as a condition.
pub record Pieces : Type 0 where
  pub number : Text
  pub id : Text
  pub plus : Bool
  pub endpoint : Text
  pub rest : Text

abbrev pub not_colon : ℕ → Bool
not_colon c = not (eqb c b':')

abbrev pub starts_with : ℕ → Text → Bool
starts_with c [] = false
starts_with c (d ∷ ds) = eqb d c

-- `c?`: one code unit is skipped if it is there.
abbrev pub skip : ℕ → Text → Text
skip c [] = []
skip c (d ∷ ds) = if eqb d c then ds else d ∷ ds

-- `([^:]+)?:?([\s\S]*)?`, behind the second colon.
unfoldable pub match_end : Text → Text → Bool → Text → Pieces
match_end number id plus s = record {
  number = number;
  id = id;
  plus = plus;
  endpoint = take_while not_colon s;
  rest = skip b':' (drop_while not_colon s);
}

-- `(\+)?:`, behind the digits.
unfoldable pub match_plus : Text → Text → Text → Option Pieces
unfolding match_end
match_plus number id s =
    let after = skip b'+' s in
    if starts_with b':' after
    then some (match_end number id (starts_with b'+' s) (skip b':' after))
    else none

-- `([0-9]+)?`, behind the first colon.
unfoldable pub match_id : Text → Text → Option Pieces
unfolding match_plus
match_id number s = match_plus number (take_while is_digit s) (drop_while is_digit s)

abbrev pub first_of_options : Option Pieces → Option Pieces → Option Pieces
first_of_options none q = q
first_of_options (some p) q = some p

-- The search for the leftmost match. `run` is what was read since the last colon: a match can only
-- begin at its start, since no later start in it meets another colon.
unfoldable pub find_pieces : Text → Text → Option Pieces
unfolding match_id
find_pieces run [] = none
find_pieces run (c ∷ cs) =
    let next = find_pieces [] cs in
    let longer = find_pieces (run ++ c ∷ []) cs in
    if eqb c b':'
    then (if run == [] then next else first_of_options (match_id run cs) next)
    else longer

-- `value || ''` on an optional text: the empty text is as good as none.
abbrev pub text_or_empty : Option Text → Option Text
text_or_empty none = some []
text_or_empty (some t) = some t

-- The parts of `data` that the code names by `pieces[0]` and `pieces[1]`.
abbrev table_at : List Text → Option Text → Option Text
table_at table none = none
table_at table (some t) = property table t

unfoldable pub decode_error : Packet → Text → Packet
unfolding property
decode_error p s =
    let pieces = split b'+' s in
    record p {
      reason = text_or_empty (table_at reasons (get_elem? pieces 0));
      advice = text_or_empty (table_at advices (get_elem? pieces 1));
    }

-- `packet.args = packet.args || []`.
abbrev or_no_args : Option Value → Option Value
or_no_args o = if is_set o then o else some (arr nil)

-- `packet.args = opts.args`, behind `packet.name = opts.name`: a property of null throws at the first.
unfoldable pub read_event : Packet → Read → Read → Packet
unfolding is_set
read_event p throws _ = record p { args = or_no_args p.args }
read_event p (value n) throws = record p { name = n; args = or_no_args p.args }
read_event p (value n) (value a) = record p { name = n; args = or_no_args a }

unfoldable pub decode_event : Packet → Option Value → Packet
unfolding read_event read
decode_event p none = record p { args = or_no_args p.args }
decode_event p (some opts) = read_event p (read opts (codes "name")) (read opts (codes "args"))

-- `.` in an expression matches no line terminator.
abbrev pub not_line_end : ℕ → Bool
not_line_end c = not (eqb c 10 || (eqb c 13 || (eqb c 0x2028 || eqb c 0x2029)))

abbrev pub args_or : Option Value → Option Value → Option Value
args_or none d = d
args_or (some v) d = some v

-- `/^([0-9]+)(\+)?(.*)/` and what the code does with its groups.
unfoldable pub decode_ack : Json → Packet → Text → Packet
decode_ack js p s =
    let id = take_while is_digit s in
    let text = take_while not_line_end (skip b'+' (drop_while is_digit s)) in
    let none_yet : Option Value = some (arr nil) in
    if id == [] then p else record p {
      ack_id = some id;
      args = (if text == [] then none_yet else args_or (js.parse text) none_yet);
    }

-- The switch on the type.
unfoldable pub decode_body : Json → Packet → Option Kind → Text → Packet
unfolding decode_error decode_event decode_ack
decode_body js p (some Kind.error) s = decode_error p s
decode_body js p (some Kind.message) s = record p { payload = some (str s) }
decode_body js p (some Kind.event) s = decode_event p (js.parse s)
decode_body js p (some Kind.json) s = record p { payload = js.parse s }
decode_body js p (some Kind.connect) s = record p { qs = some s }
decode_body js p (some Kind.ack) s = decode_ack js p s
decode_body js p _ s = p

abbrev pub set_id : Packet → Text → Bool → Packet
set_id p [] plus = p
set_id p (c ∷ cs) plus = record p {
  id = some (c ∷ cs);
  ack = (if plus then with_data else receipt);
}

unfoldable pub decode_pieces : Json → Pieces → Packet
decode_pieces js m =
    let type = property packets m.number in
    decode_body js
      (set_id (record no_packet { type = type; endpoint = some m.endpoint }) m.id m.plus) type
      m.rest

unfoldable pub decode_packet : Json → Text → Packet
unfolding find_pieces decode_pieces property decode_body
decode_packet js s = elim (find_pieces [] s) [ none ↦ no_packet | some m ↦ decode_pieces js m ]
