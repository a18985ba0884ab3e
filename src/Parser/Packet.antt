-- ===== src/Parser/Packet.antt =====
-- The tables of io.parser, and packets as the records that the client builds and reads.
use socket_io_java.Common.{
  ℕ, ◌≡◌, ◌↔◌, Bool, true, Option, none, List, [], ◌∷◌, Text, codes, Eq, eqb, arith,
}
use socket_io_java.Value.{Value}

pub data Kind : Type 0 where
  disconnect connect heartbeat message json event ack error noop : Kind

-- `packets`.
abbrev pub packets : List Kind
packets = disconnect ∷ connect ∷ heartbeat ∷ message ∷ json ∷ event ∷ ack ∷ error ∷ noop ∷ []

-- `reasons`.
abbrev pub reasons : List Text
reasons =
    codes "transport not supported" ∷ codes "client not handshaken" ∷ codes "unauthorized" ∷ []

-- `advice`.
abbrev pub advices : List Text
advices = codes "reconnect" ∷ []

-- Equality of kinds, through a number for each.
abbrev number_of : Kind → ℕ
number_of disconnect = 0
number_of connect = 1
number_of heartbeat = 2
number_of message = 3
number_of json = 4
number_of event = 5
number_of ack = 6
number_of error = 7
number_of noop = 8

abbrev pub kind_beq : Kind → Kind → Bool
kind_beq a b = eqb (number_of a) (number_of b)

pub kind_beq_iff : (a b : Kind) → (kind_beq a b ≡ true) ↔ (a ≡ b)
kind_beq_iff a b = ground arith

instance abbrev pub kind_eq : Eq Kind
kind_eq = record { beq = kind_beq; beq_iff = kind_beq_iff }

-- `packet.ack`: absent, true or 'data'.
pub data Ack : Type 0 where
  no_ack receipt with_data : Ack

-- A packet is an object with some of these properties; `none` is undefined. A type that is none of the nine
-- names is `none` too. An id is held by its text, which is also the name of the property in `acks`.
pub record Packet : Type 0 where
  pub type : Option Kind
  pub id : Option Text
  pub ack : Ack
  pub endpoint : Option Text
  pub payload : Option Value
  pub qs : Option Text
  pub reason : Option Text
  pub advice : Option Text
  pub name : Option Value
  pub args : Option Value
  pub ack_id : Option Text

-- The object literal `{}`.
abbrev pub no_packet : Packet
no_packet = record {
  type = none;
  id = none;
  ack = no_ack;
  endpoint = none;
  payload = none;
  qs = none;
  reason = none;
  advice = none;
  name = none;
  args = none;
  ack_id = none;
}
