-- ===== src/Client/Numbering.antt =====
-- SocketNamespace.ackPackets and SocketNamespace.acks: the ids that a namespace gives and the functions that wait for
-- them.
pub mod Framed
pub mod Running
use socket_io_java.Common.{
  ℕ, suc, ◌≤◌, Bool, true, false, Option, none, some, List, [], ◌∷◌, ◌≡◌, ◌≢◌, refl, sym, ◌∙◌, ◌⊎◌,
  inl, inr, Text, All, IsObject, All-insert, All-delete, All-weaken, lookup, insert, delete,
  lookup-insert, lookup-delete, lookup-absent, decimal, decimal_injective, arith, if◌then◌else◌,
  ◌==◌, text_eq, nat_eq,
}
use socket_io_java.Client.State.{Client, Namespace}
use socket_io_java.Client.Namespaces.{new_namespace, ticket, with_callback}

-- What waits is one of the first k ids.
abbrev pub IsGiven : ℕ → Text × ℕ → Type 0
IsGiven k e = (m : ℕ) × (m ≤ k) × (e.0 ≡ decimal m)

abbrev pub IsNumbered : Namespace → Type 0
IsNumbered n = All (IsGiven n.ack_packets) n.acks

-- The namespaces of a client: one for a key, and what waits in each has an id that it gave.
pub record IsCounted (s : Client) : Type 0 where
  pub object : IsObject s.namespaces
  pub numbered : All (λ e. IsNumbered e.1) s.namespaces

-- Of the ids that n had given, each waits in n' for what it waited for in n, or for nothing.
pub record Counts (n n' : Namespace) : Type 0 where
  pub count : n.ack_packets ≤ n'.ack_packets
  pub waits :
      (m : ℕ)
      → m ≤ n.ack_packets
      → (lookup (decimal m) n'.acks ≡ none)
        ⊎ (lookup (decimal m) n'.acks ≡ lookup (decimal m) n.acks)

pub Counts-refl : (n : Namespace) → Counts n n
Counts-refl n = record { count = omega arith; waits = λ m h. inr refl }

-- The next id waits for nothing.
pub ticket-fresh : (n : Namespace) (fn : ℕ) → IsNumbered n → lookup (ticket n fn) n.acks ≡ none
ticket-fresh n fn h = lookup-absent (ticket n fn) n.acks (
    All-weaken
      (λ e g q.
        absurd (omega (arith, g.1, decimal_injective g.0 (suc n.ack_packets) (sym g.2 ∙ q))))
      n.acks h)

pub with_callback-IsNumbered :
    (fn : ℕ) (n : Namespace) → IsNumbered n → IsNumbered (with_callback n fn)
with_callback-IsNumbered fn n h =
    All-insert (IsGiven (suc n.ack_packets)) (ticket n fn) fn n.acks
      (suc n.ack_packets, omega arith, refl)
      (All-weaken (λ e g. (g.0, omega (arith, g.1), g.2)) n.acks h)

pub delete-IsNumbered :
    (id : Text) (n : Namespace) → IsNumbered n → IsNumbered (record n { acks = delete id n.acks })
delete-IsNumbered id n h = All-delete (IsGiven n.ack_packets) id n.acks h

-- A new function waits for an id that is none of the ones before.
pub with_callback-Counts :
    (fn : ℕ) (n n' : Namespace) → Counts n n' → Counts n (with_callback n' fn)
with_callback-Counts fn n n' g = record {
  count = omega (arith, g.count);
  waits = λ m h. rw (lookup-insert (ticket n' fn) (decimal m) fn n'.acks) (
      kept m h (ticket n' fn == decimal m) (λ e. (text_eq.beq_iff (ticket n' fn) (decimal m)).0 e));
}
  where
    kept :
        (m : ℕ)
        → m ≤ n.ack_packets
        → (b : Bool) → (b ≡ true → ticket n' fn ≡ decimal m)
        → ((if b then some fn else lookup (decimal m) n'.acks) ≡ none)
          ⊎ ((if b then some fn else lookup (decimal m) n'.acks) ≡ lookup (decimal m) n.acks)
    kept m h true e =
        absurd (omega (arith, h, g.count, decimal_injective (suc n'.ack_packets) m (e refl)))
    kept m h false e = g.waits m h

pub delete-Counts :
    (id : Text) (n n' : Namespace) → Counts n n' → Counts n (record n' { acks = delete id n'.acks })
delete-Counts id n n' g = record {
  count = g.count;
  waits = λ m h. rw (lookup-delete id (decimal m) n'.acks) (kept m h (id == decimal m));
}
  where
    kept :
        (m : ℕ)
        → m ≤ n.ack_packets
        → (b : Bool)
        → ((if b then none else lookup (decimal m) n'.acks) ≡ none)
          ⊎ ((if b then none else lookup (decimal m) n'.acks) ≡ lookup (decimal m) n.acks)
    kept m h true = inl refl
    kept m h false = g.waits m h
