-- ===== src/Client/Numbering/Running.antt =====
-- Every event keeps the numbering.
use socket_io_java.Common.{
  ℕ, suc, ◌≤◌, ◌<◌, Bool, true, false, if◌then◌else◌, ◌==◌, text_eq, nat_eq, [], ◌∷◌, ap, sym, ◌∙◌,
  lookup-insert, beq_refl, none, some, List, ◌≡◌, refl, ◌⊎◌, inl, inr, Text, All-combine,
  All-weaken, lookup-none, lookup-only, All-lookup, Option-cases, lookup, decimal, arith,
}
use socket_io_java.Parser.Encode.{Json}
use socket_io_java.Value.{Value}
use socket_io_java.Client.State.{Client, Namespace}
use socket_io_java.Client.Buffer.{packet, on_open}
use socket_io_java.Client.Namespaces.{
  namespace_at, new_namespace, ticket, send, namespace_packet, of, set_namespace, with_callback,
  with_id, message_packet, connect_packet,
}
use socket_io_java.Parser.Packet.{receipt}
use socket_io_java.Client.Acknowledgement.{lookup-set_namespace}
use socket_io_java.Client.Events.{Event, sends, handle, run}
use socket_io_java.Client.Frame.Running.{Keeps-run}
use socket_io_java.Client.Numbering.{IsCounted, Counts, Counts-refl, ticket-fresh}
use socket_io_java.Client.Numbering.Framed.{numbering, Knows, KnowsFrom, FitsAt}

KnowsFrom-run :
    (followed : Text) (n : Namespace) (js : Json) (es : List Event) (s : Client)
    → KnowsFrom followed n s (run js es s)
unfolding numbering on_open
KnowsFrom-run followed n = Keeps-run (numbering followed n) (λ s t h. h) (λ s h. h)

Counts-new :
    (n : Namespace) (name name' : Text) → n ≡ new_namespace name → Counts n (new_namespace name')
unfolding lookup
Counts-new n name name' e = rw e (record { count = omega arith; waits = λ m h. inl refl })

-- A run that is followed starts with the namespace as it is.
Knows-start :
    (name : Text) (s : Client) → IsCounted s → Knows name (namespace_at (some name) s) s.namespaces
unfolding namespace_at
Knows-start name s h = elim (Option-cases (lookup name s.namespaces)) [
  | inl e ↦
      rw (e, namespace_at)
        (record {
          object = h.object;
          all =
              All-combine (λ d p q. (p, λ r. absurd (q r))) s.namespaces h.numbered
                (lookup-none name s.namespaces e);
          made = λ _ name'. Counts-new (new_namespace name) name name' refl;
        })
  | inr (m, e) ↦
      rw (e, namespace_at)
        (record {
          object = h.object;
          all =
              All-combine (λ d p q. (p, λ r. rw (q r) (Counts-refl m))) s.namespaces h.numbered
                (lookup-only name m s.namespaces h.object e);
          made = λ q. absurd (cc (q, e));
        })
]

Knows-at :
    (name : Text) (n : Namespace) (s : Client)
    → Knows name n s.namespaces
    → FitsAt name n name (namespace_at (some name) s)
unfolding namespace_at
Knows-at name n s k = elim (Option-cases (lookup name s.namespaces)) [
  | inl e ↦ rw (e, namespace_at) (tt, λ _. k.made e name)
  | inr (m, e) ↦
      rw (e, namespace_at) (All-lookup (λ d. FitsAt name n d.0 d.1) name m s.namespaces k.all e)
]

-- Over a run the namespaces stay counted; of the namespace of any name, the count of its ids does not fall, an id that was
-- given before waits for what it waited for or for nothing, and the next id waits for nothing.
run-IsCounted :
    (js : Json) (es : List Event) (s : Client) (name : Text) (fn : ℕ)
    → IsCounted s
    → let n = namespace_at (some name) s in
      let n' = namespace_at (some name) (run js es s) in
      IsCounted (run js es s)
      × (n.ack_packets ≤ n'.ack_packets)
      × ((m : ℕ)
          → m ≤ n.ack_packets
          → (lookup (decimal m) n'.acks ≡ none)
            ⊎ (lookup (decimal m) n'.acks ≡ lookup (decimal m) n.acks))
      × (lookup (ticket n' fn) n'.acks ≡ none)
run-IsCounted js es s name fn h =
    let n = namespace_at (some name) s in
    let k = KnowsFrom-run name n js es s (Knows-start name s h) in
    let (f, c) = Knows-at name n (run js es s) k in
    let g = c refl in
    (
      record {
        object = k.object;
        numbered = All-weaken (λ e p. p.0) (run js es s).namespaces k.all;
      },
      g.count,
      g.waits,
      ticket-fresh (namespace_at (some name) (run js es s)) fn f,
    )

-- `of` leaves a namespace as it finds it, or makes it.
namespace_at-of :
    (name : Text) (s : Client)
    → namespace_at (some name) (of (some name) s) ≡ namespace_at (some name) s
unfolding of namespace_at namespace_packet
namespace_at-of name s = elim (Option-cases (lookup name s.namespaces)) [
  | inl e ↦ rw (e, of, namespace_at) (made (name == []))
  | inr (n, e) ↦ rw (e, of) refl
]
  where
    n : Namespace
    n = new_namespace name

    s' : Client
    s' = set_namespace name n s

    made :
        (b : Bool)
        → namespace_at (some name) (if b then s' else namespace_packet name n connect_packet s') ≡ n
    made true = lookup-set_namespace name n s
    made false =
        lookup-set_namespace name (record n { json = false })
          (packet (record connect_packet { endpoint = some n.name }) s')

-- A call with a function keeps it under the next id of the namespace.
sends_kept :
    (js : Json) (name : Text) (v : Value) (fn : ℕ) (s : Client)
    → let n = namespace_at (some name) s in
      let n' = namespace_at (some name) (handle js (sends name v (some fn)) s) in
      (lookup (ticket n fn) n'.acks ≡ some fn) × (n'.ack_packets ≡ suc n.ack_packets)
unfolding handle send namespace_packet
sends_kept js name v fn s =
    let o = of (some name) s in
    let n = namespace_at (some name) o in
    let m = record (with_callback n fn) { json = false } in
    let p = record (with_id (message_packet n v) n fn receipt) { endpoint = some n.name } in
    let at_end = lookup-set_namespace name m (packet p o) in
    let same = namespace_at-of name s in
    (
      ap
            (λ k.
              lookup (ticket k fn)
                (namespace_at (some name) (set_namespace name m (packet p o))).acks)
            (sym same)
          ∙ ap (λ k. lookup (ticket n fn) k.acks) at_end
          ∙ ground
              (arith, lookup-insert (ticket n fn) (ticket n fn) fn n.acks, beq_refl (ticket n fn)),
      ap (λ k. k.ack_packets) at_end ∙ ap (λ k. suc k.ack_packets) same,
    )

-- The function of a `send` after any run, in a client that keeps one namespace for a key and in which what waits has an id
-- that was given: its id is one under which nothing waited, the function waits under it, and after any further
-- run of events it waits there still or nothing does; the namespace has given more ids by then than before the call.
pub run-IsNumbered :
    (js : Json) (es es' : List Event) (s : Client) (name : Text) (v : Value) (fn : ℕ)
    → IsCounted s
    → let t = run js es s in
      let n = namespace_at (some name) t in
      let u = handle js (sends name v (some fn)) t in
      let n' = namespace_at (some name) (run js es' u) in
      IsCounted (run js es' u)
      × (lookup (ticket n fn) n.acks ≡ none)
      × (lookup (ticket n fn) (namespace_at (some name) u).acks ≡ some fn)
      × ((lookup (ticket n fn) n'.acks ≡ none) ⊎ (lookup (ticket n fn) n'.acks ≡ some fn))
      × (n.ack_packets < n'.ack_packets)
unfolding run
run-IsNumbered js es es' s name v fn h =
    let t = run js es s in
    let e = sends name v (some fn) in
    let u = handle js e t in
    let n = namespace_at (some name) t in
    let (counted, _, _, fresh) = run-IsCounted js es s name fn h in
    let again = (run-IsCounted js (e ∷ []) t name fn counted).0 in
    let (kept, more) = sends_kept js name v fn t in
    let (end, grown, waits, _) = run-IsCounted js es' u name fn again in
    (
      end,
      fresh,
      kept,
      elim (waits (suc n.ack_packets) (omega (arith, more))) [
        | inl gone ↦ inl gone
        | inr same ↦ inr (same ∙ kept)
      ],
      omega (arith, more, grown),
    )
