-- ===== src/Client/Polling.antt =====
-- XHR polling: a transport that is open always has a request under way, so the server can reach it.
pub mod Framed
pub mod Steps
pub mod Asking
use mathlib.Core.Path.{subst}
use socket_io_java.Common.{
  Bool, true, false, not, ◌&&◌, Option, none, some, ◌≡◌, refl, sym, ap, ◌∙◌, ◌⊎◌, inl, inr, arith,
  if◌then◌else◌, List, [], ◌∷◌,
}
use socket_io_java.Parser.Packet.{Packet}
use socket_io_java.Client.State.{
  Client, Transport, TransportKind, xhr_polling, htmlfile, Channel, waiting, idle, OpenFlag,
  not_open, yes_open,
}
use socket_io_java.Client.Buffer.{packet, set_buffer, send_each, on_close}
use socket_io_java.Client.Close.{
  set_transport, release, release_from, has_xhr, has_iframe, mark_closed, shut, reconnect,
  transport_on_close_with,
}
use socket_io_java.Client.Opening.{settle, arrive}
use socket_io_java.Client.Delivery.{send_each_fields}
use socket_io_java.Client.Frame.{Frame}

-- The kind stays. The request of an open transport stays as it is until the transport is closed, a closed one is not opened,
-- and no request is begun.
pub record Follows (t t' : Transport) : Type 0 where
  pub kind : t'.kind ≡ t.kind
  pub left :
      t.kind ≡ xhr_polling
      → (t'.opened ≡ not_open) ⊎ ((t'.opened ≡ t.opened) × (t'.channel ≡ t.channel))
  pub asked : t'.channel ≡ waiting → t.channel ≡ waiting

abbrev pub FollowsOption : Option Transport → Option Transport → Type 0
FollowsOption none none = Unit
FollowsOption (some t) (some t') = Follows t t'
FollowsOption _ _ = ⊥

abbrev pub IsClosed : Option Transport → Type 0
IsClosed none = Unit
IsClosed (some t) = t.kind ≡ xhr_polling → t.opened ≡ not_open

-- An open transport that polls has a request under way.
abbrev pub Polls : Option Transport → Type 0
Polls none = Unit
Polls (some t) = t.kind ≡ xhr_polling → t.opened ≡ yes_open → t.channel ≡ waiting

Follows-refl : (t : Transport) → Follows t t
Follows-refl t = record { kind = refl; left = λ _. inr (refl, refl); asked = λ e. e }

Follows-trans : (t u v : Transport) → Follows t u → Follows u v → Follows t v
Follows-trans t u v g h = record {
  kind = h.kind ∙ g.kind;
  left = λ k. ground (arith, g.left k, h.left (g.kind ∙ k));
  asked = λ e. g.asked (h.asked e);
}

pub FollowsOption-refl : (o : Option Transport) → FollowsOption o o
FollowsOption-refl none = tt
FollowsOption-refl (some t) = Follows-refl t

pub FollowsOption-trans :
    (o p q : Option Transport) → FollowsOption o p → FollowsOption p q → FollowsOption o q
FollowsOption-trans none none none g h = tt
FollowsOption-trans none none (some v) g h = elim h [ ]
FollowsOption-trans none (some u) q g h = elim g [ ]
FollowsOption-trans (some t) none q g h = elim g [ ]
FollowsOption-trans (some t) (some u) none g h = elim h [ ]
FollowsOption-trans (some t) (some u) (some v) g h = Follows-trans t u v g h

pub FollowsOption-IsClosed : (o p : Option Transport) → FollowsOption o p → IsClosed o → IsClosed p
FollowsOption-IsClosed none none g h = tt
FollowsOption-IsClosed none (some u) g h = elim g [ ]
FollowsOption-IsClosed (some t) none g h = elim g [ ]
FollowsOption-IsClosed (some t) (some u) g h =
    λ k. ground (arith, g.left (sym g.kind ∙ k), h (sym g.kind ∙ k))

pub FollowsOption-Polls : (o p : Option Transport) → FollowsOption o p → Polls o → Polls p
FollowsOption-Polls none none g h = tt
FollowsOption-Polls none (some u) g h = elim g [ ]
FollowsOption-Polls (some t) none g h = elim g [ ]
FollowsOption-Polls (some t) (some u) g h =
    λ k e. ground (arith, g.left (sym g.kind ∙ k), h (sym g.kind ∙ k))

pub IsClosed-Polls : (o : Option Transport) → IsClosed o → Polls o
IsClosed-Polls none h = tt
IsClosed-Polls (some t) h = λ k e. ground (arith, h k)

abbrev pub FollowsFrom : Client → Client → Type 0
FollowsFrom s s' = FollowsOption s.transport s'.transport

-- A step that leaves the transport as it is.
pub FollowsFrom-still : (s s' : Client) → s'.transport ≡ s.transport → FollowsFrom s s'
FollowsFrom-still s s' e = rw e (FollowsOption-refl s.transport)

pub FollowsFrom-on_transport :
    (f : Transport → Transport) (o : Option Transport) (s : Client)
    → s.transport ≡ o
    → ((t : Transport) → Follows t (f t))
    → FollowsFrom s (elim o as (λ _. Client) [ none ↦ s | some t ↦ set_transport s (f t) ])
FollowsFrom-on_transport f none s e k = FollowsOption-refl s.transport
FollowsFrom-on_transport f (some t) s e k = rw e (k t)

pub mark_closed-IsClosed : (s : Client) → IsClosed (mark_closed s).transport
mark_closed-IsClosed s = closed s.transport refl
  where
    closed :
        (o : Option Transport)
        → s.transport ≡ o
        → IsClosed
            (elim o as (λ _. Client) [
              | none ↦ s
              | some t ↦ set_transport s (record t { opened = not_open })
            ]).transport
    closed none e = rw e tt
    closed (some t) e = λ k. refl

pub release_from-Follows :
    (has : Transport → Bool) (o : Option Transport) (s : Client)
    → s.transport ≡ o
    → ((t : Transport) → o ≡ some t → has t ≡ true → Follows t (record t { channel = idle }))
    → FollowsFrom s (elim o as (λ _. Client) [ none ↦ s | some t ↦ release_from (has t) t s ])
release_from-Follows has none s e k = FollowsOption-refl s.transport
release_from-Follows has (some t) s e k = released (has t) refl
  where
    released : (b : Bool) → has t ≡ b → FollowsFrom s (release_from b t s)
    released true h = rw e (k t refl h)
    released false h = FollowsOption-refl s.transport

pub has_iframe-Follows :
    (t : Transport) → has_iframe t ≡ true → Follows t (record t { channel = idle })
has_iframe-Follows t h = record { kind = refl; left = λ k. ground arith; asked = λ e. cc }

closed-Follows :
    (t : Transport)
    → (t.kind ≡ xhr_polling → t.opened ≡ not_open)
    → Follows t (record t { channel = idle })
closed-Follows t h = record { kind = refl; left = λ k. inl (h k); asked = λ e. cc }

pub released_closed : (s : Client) → IsClosed s.transport → FollowsFrom s (release has_xhr s)
released_closed s h =
    release_from-Follows has_xhr s.transport s refl (λ t e _. closed-Follows t (subst IsClosed e h))
