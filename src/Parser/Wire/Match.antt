-- ===== src/Parser/Wire/Match.antt =====
-- Reading the expression for packets on a text of the encoder's form.
use socket_io_java.Common.{
  ℕ, ◌≡◌, refl, ap, Bool, true, false, Option, none, some, [], ◌∷◌, ◌++◌, Text, codes, InClass,
  Stops, is_digit, take_while-append, drop_while-append, eqb, nat_eq, text_eq,
}
use socket_io_java.Util.Indexing.{property}
use socket_io_java.Parser.Packet.{Kind, packets}
use socket_io_java.Parser.Encode.{Json, type_text, or_empty}
use socket_io_java.Parser.Decode.{
  decode_packet, find_pieces, Pieces, match_id, match_plus, match_end, not_colon, skip,
  decode_pieces,
}

-- The optional last fragment, with its colon.
abbrev pub last : Option Text → Text
last none = []
last (some t) = b':' ∷ t

pub last-Stops : (o : Option Text) → Stops not_colon (last o)
last-Stops none = tt
last-Stops (some t) = refl

pub skip-last : (o : Option Text) → skip b':' (last o) ≡ or_empty o
skip-last none = refl
skip-last (some t) = refl

pub match_end-last :
    (number id : Text) (plus : Bool) (e : Text) (o : Option Text)
    → InClass not_colon e
    → match_end number id plus (e ++ last o)
      ≡ record { number = number; id = id; plus = plus; endpoint = e; rest = or_empty o }
unfolding match_end
match_end-last number id plus e o h = rw (
  take_while-append not_colon e (last o) h (last-Stops o),
  drop_while-append not_colon e (last o) h (last-Stops o),
  skip-last o,
)

abbrev pub plus_text : Bool → Text
plus_text true = codes "+"
plus_text false = []

pub plus_text-Stops : (plus : Bool) (t : Text) → Stops is_digit (plus_text plus ++ b':' ∷ t)
plus_text-Stops true t = refl
plus_text-Stops false t = refl

-- The reader of the part behind the type gives its fragments back.
pub match_id-fragments :
    (number id : Text) (plus : Bool) (e : Text) (o : Option Text)
    → InClass is_digit id
    → InClass not_colon e
    → match_id number (id ++ (plus_text plus ++ b':' ∷ (e ++ last o)))
      ≡ some (record { number = number; id = id; plus = plus; endpoint = e; rest = or_empty o })
unfolding match_id
match_id-fragments number id plus e o hd hc =
    rw
      (
        take_while-append is_digit id _ hd (plus_text-Stops plus (e ++ last o)),
        drop_while-append is_digit id _ hd (plus_text-Stops plus (e ++ last o)),
      )
      (behind plus)
  where
    behind :
        (plus : Bool)
        → match_plus number id (plus_text plus ++ b':' ∷ (e ++ last o))
          ≡ some (record { number = number; id = id; plus = plus; endpoint = e; rest = or_empty o })
    behind true = ap some (match_end-last number id true e o hc)
    behind false = ap some (match_end-last number id false e o hc)

abbrev pub number_text : Kind → Text
number_text k = type_text (some k)

pub property-number_text : (k : Kind) → property packets (number_text k) ≡ some k
unfolding property type_text
property-number_text Kind.disconnect = refl
property-number_text _ = refl

-- The number of a type is one code unit that is no colon.
pub number_text_shape : (k : Kind) → (c : ℕ) × (number_text k ≡ c ∷ []) × (eqb c b':' ≡ false)
unfolding type_text
number_text_shape Kind.disconnect = (b'0', refl, refl)
number_text_shape Kind.connect = (b'1', refl, refl)
number_text_shape Kind.heartbeat = (b'2', refl, refl)
number_text_shape Kind.message = (b'3', refl, refl)
number_text_shape Kind.json = (b'4', refl, refl)
number_text_shape Kind.event = (b'5', refl, refl)
number_text_shape Kind.ack = (b'6', refl, refl)
number_text_shape Kind.error = (b'7', refl, refl)
number_text_shape Kind.noop = (b'8', refl, refl)

-- A match behind the first colon is the match.
pub find_pieces-number :
    (number s : Text) (m : Pieces)
    → (c : ℕ) × (number ≡ c ∷ []) × (eqb c b':' ≡ false)
    → match_id number s ≡ some m
    → find_pieces [] (number ++ b':' ∷ s) ≡ some m
unfolding find_pieces
find_pieces-number number s m (c, e, no_colon) h = rw (e, no_colon, rw e at h)

-- A text of the encoder's form is read as its fragments.
pub decode_packet-fragments :
    (js : Json) (k : Kind) (id : Text) (plus : Bool) (e : Text) (o : Option Text)
    → InClass is_digit id
    → InClass not_colon e
    → decode_packet js (number_text k ++ (b':' ∷ (id ++ (plus_text plus ++ b':' ∷ (e ++ last o)))))
      ≡ decode_pieces js
          (record { number = number_text k; id = id; plus = plus; endpoint = e; rest = or_empty o })
unfolding decode_packet
decode_packet-fragments js k id plus e o hd hc = rw (
  find_pieces-number (number_text k) (id ++ (plus_text plus ++ b':' ∷ (e ++ last o))) _
      (number_text_shape k) (match_id-fragments (number_text k) id plus e o hd hc),
  decode_packet,
)
