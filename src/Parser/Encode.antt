-- ===== src/Parser/Encode.antt =====
-- parser.encodePacket and parser.encodePayload.
use socket_io_java.Common.{
  ℕ, Bool, false, Option, none, some, List, [], ◌∷◌, ◌++◌, Text, codes, decimal, length, join,
  text_eq, ◌==◌, if◌then◌else◌,
}
use socket_io_java.Value.{Value, Fields, obj, str, null, end, field, read, throws, value, is_set}
use socket_io_java.Util.Indexing.{index_of}
use socket_io_java.Parser.Packet.{Packet, Kind, packets, reasons, advices, kind_eq, with_data, Ack}

-- io.JSON and the conversion of a value to a text. `parse` is `none` where JSON.parse throws.
pub record Json : Type 0 where
  pub stringify : Value → Text
  pub parse : Text → Option Value
  pub to_string : Value → Text

-- The text of the number that `indexOf` returns.
unfoldable pub index_text : Option ℕ → Text
unfolding decimal
index_text none = codes "-1"
index_text (some n) = decimal n

-- `text || ''`.
abbrev pub or_empty : Option Text → Text
or_empty none = []
or_empty (some t) = t

-- `text ? indexOf(table, text) : ''`.
unfoldable pub index_or_empty : List Text → Option Text → Text
unfolding index_text index_of
index_or_empty table t =
    if or_empty t == [] then [] else index_text (index_of table (or_empty t) none)

-- `packet.args && packet.args.length`, as a condition.
unfoldable pub has_length : Option Value → Bool
unfolding read is_set
has_length none = false
has_length (some v) = elim (read v (codes "length")) [ throws ↦ false | value o ↦ is_set o ]

-- The object literal of an event: a property that is undefined is not printed.
unfoldable pub event_object : Option Value → Fields → Value
event_object none rest = obj rest
event_object (some name) rest = obj (field (codes "name") name rest)

unfoldable pub args_field : Option Value → Fields
unfolding has_length
args_field none = end
args_field (some v) = if has_length (some v) then field (codes "args") v end else end

unfoldable pub message_fragment : Json → Option Value → Option Text
message_fragment js none = none
message_fragment js (some null) = none
message_fragment js (some (str [])) = none
message_fragment js (some (str t)) = some t
message_fragment js (some v) = some (js.to_string v)

-- JSON.stringify(undefined) is undefined.
unfoldable pub json_fragment : Json → Option Value → Option Text
json_fragment js none = none
json_fragment js (some v) = some (js.stringify v)

unfoldable pub error_fragment : Text → Text → Option Text
error_fragment [] [] = none
error_fragment reason [] = some reason
error_fragment reason advice = some (reason ++ (codes "+" ++ advice))

unfoldable pub ack_fragment : Json → Option Text → Option Value → Text
unfolding has_length
ack_fragment js id none = elim id [ none ↦ codes "undefined" | some t ↦ t ]
ack_fragment js id (some v) =
    (elim id [ none ↦ codes "undefined" | some t ↦ t ])
    ++ (if has_length (some v) then codes "+" ++ js.stringify v else [])

-- The switch on the type: the data fragment, if there is one.
unfoldable pub data_fragment : Json → Packet → Option Kind → Option Text
unfolding index_or_empty event_object args_field message_fragment json_fragment error_fragment
    ack_fragment
data_fragment js p (some Kind.error) =
    error_fragment (index_or_empty reasons p.reason) (index_or_empty advices p.advice)
data_fragment js p (some Kind.message) = message_fragment js p.payload
data_fragment js p (some Kind.event) = some (js.stringify (event_object p.name (args_field p.args)))
data_fragment js p (some Kind.json) = json_fragment js p.payload
data_fragment js p (some Kind.connect) = if or_empty p.qs == [] then none else p.qs
data_fragment js p (some Kind.ack) = some (ack_fragment js p.ack_id p.args)
data_fragment js p _ = none

-- `indexOf(packets, packet.type)`.
unfoldable pub type_text : Option Kind → Text
unfolding index_text index_of
type_text none = index_text none
type_text (some k) = index_text (index_of packets k none)

abbrev pub plus_if_data : Ack → Text
plus_if_data with_data = codes "+"
plus_if_data _ = []

abbrev pub optional : Option Text → List Text
optional none = []
optional (some t) = t ∷ []

unfoldable pub encode_packet : Json → Packet → Text
unfolding type_text data_fragment
encode_packet js p = join (codes ":") (
    type_text p.type
    ∷ (or_empty p.id ++ plus_if_data p.ack)
    ∷ or_empty p.endpoint
    ∷ optional (data_fragment js p p.type))

-- U+FFFD, which stands round the length of each packet of a payload.
abbrev pub mark : ℕ
mark = 0xfffd

-- The loop, with the text built so far.
unfoldable pub frames : Text → List Text → Text
unfolding decimal
frames decoded [] = decoded
frames decoded (p ∷ ps) = frames (decoded ++ (mark ∷ (decimal (length p) ++ mark ∷ p))) ps

unfoldable pub encode_payload : List Text → Text
unfolding frames
encode_payload (p ∷ []) = p
encode_payload ps = frames [] ps
