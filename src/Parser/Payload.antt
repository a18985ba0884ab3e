-- ===== src/Parser/Payload.antt =====
-- parser.decodePayload, and its meeting with parser.encodePayload.
use socket_io_java.Common.{
  ℕ, zero, suc, ◌≡◌, refl, sym, ap, ◌∙◌, Bool, true, false, Option, none, some, List, [], ◌∷◌, ◌++◌,
  map, append_assoc, append-nil, Text, is_digit, IsDigit, All, digits_from, digits_from-decimal,
  decimal, decimal-IsDigit, take, length, take-length_append, if◌then◌else◌, eqb, Stops, arith,
}
use socket_io_java.Parser.Packet.{Packet}
use socket_io_java.Parser.Encode.{Json, mark, frames, encode_payload}
use socket_io_java.Parser.Decode.{decode_packet}

abbrev pub all_digits : Text → Bool
all_digits [] = true
all_digits (c ∷ cs) = if is_digit c then all_digits cs else false

-- `Number(text)` for a length field: decimal digits are read, and the empty text is 0. Any other
-- text is taken for NaN, which is `none`.
unfoldable pub to_number : Text → Option ℕ
to_number s = if all_digits s then some (digits_from 0 s) else none

-- The loop of decodePayload at an index: `ahead` code units are still to be skipped by the last
-- `i += Number(length) + 1`, `field` is the variable `length`, and the text is what begins at `i`. An
-- index that is NaN ends the loop.
unfoldable pub packets_from : Json → ℕ → Text → Text → List Packet
unfolding to_number
packets_from js ahead field [] = []
packets_from js (suc ahead) field (c ∷ cs) = packets_from js ahead field cs
packets_from js zero field (c ∷ cs) = elim (eqb c mark) [
  | true ↦ elim (to_number field) [
    | none ↦ decode_packet js [] ∷ []
    | some n ↦ decode_packet js (take n cs) ∷ packets_from js (suc n) [] cs
  ]
  | false ↦ packets_from js zero (field ++ c ∷ []) cs
]

abbrev starts_with_mark : Text → Bool
starts_with_mark [] = false
starts_with_mark (c ∷ cs) = eqb c mark

abbrev rest_of : Text → Text
rest_of [] = []
rest_of (c ∷ cs) = cs

unfoldable pub decode_payload : Json → Text → List Packet
unfolding packets_from
decode_payload js s =
    if starts_with_mark s then packets_from js zero [] (rest_of s) else decode_packet js s ∷ []

-- What one packet adds to a payload.
abbrev frame : Text → Text
frame p = mark ∷ (decimal (length p) ++ mark ∷ p)

abbrev framed : List Text → Text
framed [] = []
framed (p ∷ ps) = frame p ++ framed ps

frames-framed : (s : Text) (ps : List Text) → frames s ps ≡ s ++ framed ps
unfolding frames
frames-framed s [] = sym (append-nil s)
frames-framed s (p ∷ ps) = frames-framed (s ++ frame p) ps ∙ append_assoc s (frame p) (framed ps)

all_digits-IsDigit : (s : Text) → All IsDigit s → all_digits s ≡ true
all_digits-IsDigit [] h = refl
all_digits-IsDigit (c ∷ cs) h = ground (arith, all_digits-IsDigit cs h.1)

pub to_number-decimal : (n : ℕ) → to_number (decimal n) ≡ some n
unfolding to_number
to_number-decimal n =
    rw (all_digits-IsDigit (decimal n) (decimal-IsDigit n)) (ap some (digits_from-decimal n))

-- The digits of a length field are read into the variable, one by one.
packets_from-digits :
    (js : Json) (field s t : Text)
    → All IsDigit s
    → packets_from js zero field (s ++ t) ≡ packets_from js zero (field ++ s) t
unfolding packets_from
packets_from-digits js field [] t h = ap (λ f. packets_from js zero f t) (sym (append-nil field))
packets_from-digits js field (c ∷ s) t h =
    rw (unmarked c h.0, packets_from)
      (packets_from-digits js (field ++ c ∷ []) s t h.1
        ∙ ap (λ f. packets_from js zero f t) (append_assoc field (c ∷ []) s))
  where
    unmarked : (c : ℕ) → IsDigit c → eqb c mark ≡ false
    unmarked c d = ground arith

-- What was read as a packet is skipped, and one code unit more.
packets_from-skip :
    (js : Json) (s t : Text) → packets_from js (suc (length s)) [] (s ++ t) ≡ packets_from js 1 [] t
unfolding packets_from
packets_from-skip js [] t = refl
packets_from-skip js (c ∷ s) t = packets_from-skip js s t

packets_from-frame :
    (js : Json) (p t : Text)
    → packets_from js zero [] (decimal (length p) ++ mark ∷ (p ++ t))
      ≡ decode_packet js p ∷ packets_from js (suc (length p)) [] (p ++ t)
unfolding packets_from
packets_from-frame js p t =
    packets_from-digits js [] (decimal (length p)) (mark ∷ (p ++ t)) (decimal-IsDigit (length p))
    ∙ rw (to_number-decimal (length p), packets_from)
        (ap (λ s. decode_packet js s ∷ packets_from js (suc (length p)) [] (p ++ t))
          (take-length_append p t))

-- Behind the mark of the first frame, the frames are read one by one.
packets_from-framed :
    (js : Json) (p : Text) (ps : List Text)
    → packets_from js zero [] ((decimal (length p) ++ mark ∷ p) ++ framed ps)
      ≡ map (decode_packet js) (p ∷ ps)
unfolding packets_from
packets_from-framed js p [] =
    ap (packets_from js zero []) (append_assoc (decimal (length p)) (mark ∷ p) [])
    ∙ packets_from-frame js p []
    ∙ ap (◌∷◌ (decode_packet js p)) (packets_from-skip js p [])
packets_from-framed js p (q ∷ ps) =
    ap (packets_from js zero []) (append_assoc (decimal (length p)) (mark ∷ p) (framed (q ∷ ps)))
    ∙ packets_from-frame js p (framed (q ∷ ps))
    ∙ ap (◌∷◌ (decode_packet js p))
        (packets_from-skip js p (framed (q ∷ ps)) ∙ packets_from-framed js q ps)

decode_payload-frames :
    (js : Json) (p : Text) (ps : List Text)
    → decode_payload js (frames [] (p ∷ ps)) ≡ map (decode_packet js) (p ∷ ps)
decode_payload-frames js p ps =
    ap (decode_payload js) (frames-framed [] (p ∷ ps))
    ∙ unfold decode_payload in packets_from-framed js p ps

-- Which lists of encoded packets a payload can carry: not the empty list, whose payload is empty and
-- is read as one packet, and no single packet that begins with the mark, since a single packet is
-- sent without a frame.
abbrev pub IsFramable : List Text → Type 0
IsFramable [] = ⊥
IsFramable (p ∷ []) = Stops (λ c. eqb c mark) p
IsFramable (p ∷ q ∷ ps) = Unit {0}

-- Decoding an encoded payload gives the decoded packets, in order, whatever the packets
-- contain (also marks and colons), for every list of packets that a payload can carry.
pub decode_payload-encode_payload :
    (js : Json) (ps : List Text)
    → IsFramable ps
    → decode_payload js (encode_payload ps) ≡ map (decode_packet js) ps
unfolding decode_payload encode_payload
decode_payload-encode_payload js [] h = absurd h
decode_payload-encode_payload js ([] ∷ []) h = refl
decode_payload-encode_payload js ((c ∷ p) ∷ []) h = rw h
decode_payload-encode_payload js (p ∷ q ∷ ps) h = decode_payload-frames js p (q ∷ ps)
