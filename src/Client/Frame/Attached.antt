-- ===== src/Client/Frame/Attached.antt =====
-- What changes the transport alone, for a relation that lets its fields change.
use socket_io_java.Common.{Bool, true, false, Option, none, some}
use socket_io_java.Client.State.{Client, Transport, not_open, yes_open}
use socket_io_java.Client.Buffer.{on_close}
use socket_io_java.Client.Close.{
  set_transport, release, release_from, has_xhr, mark_closed, transport_on_close_with,
}
use socket_io_java.Client.Events.{mark_open}

module _ (Rel : Client → Client → Type 0) (same : (s : Client) → Rel s s)
    (swaps : (s : Client) (t : Transport) → Rel s (set_transport s t)) where
  Rel-on_transport :
      (f : Transport → Transport) (o : Option Transport) (s : Client)
      → Rel s (elim o as (λ _. Client) [ none ↦ s | some t ↦ set_transport s (f t) ])
  Rel-on_transport f none s = same s
  Rel-on_transport f (some t) s = swaps s (f t)

  pub Rel-mark_open : (s : Client) → Rel s (mark_open s)
  Rel-mark_open s =
      Rel-on_transport (λ t. record t { opened = yes_open; close_timer = false }) s.transport s

  pub Rel-mark_closed : (s : Client) → Rel s (mark_closed s)
  Rel-mark_closed s = Rel-on_transport (λ t. record t { opened = not_open }) s.transport s

  pub Rel-release : (has : Transport → Bool) (s : Client) → Rel s (release has s)
  Rel-release has s = released s.transport
    where
      released_by : (b : Bool) (t : Transport) → Rel s (release_from b t s)
      released_by true t = swaps s _
      released_by false t = same s

      released :
          (o : Option Transport)
          → Rel s (elim o as (λ _. Client) [ none ↦ s | some t ↦ release_from (has t) t s ])
      released none = same s
      released (some t) = released_by (has t) t

  -- Transport.onClose, whatever its end does.
  pub Rel-closes_up :
      ((s t u : Client) → Rel s t → Rel t u → Rel s u)
      → ((s : Client) → Rel s (on_close s))
      → (finish : Client → Client) → ((s : Client) → Rel s (finish s))
      → (s : Client) → Rel s (transport_on_close_with finish s)
  unfolding transport_on_close_with
  Rel-closes_up chain shuts finish k s =
      let marked = mark_closed s in
      let shut = on_close marked in
      chain s shut _ (chain s marked shut (Rel-mark_closed s) (shuts marked))
        (chain shut (finish shut) _ (k shut) (Rel-release has_xhr (finish shut)))
