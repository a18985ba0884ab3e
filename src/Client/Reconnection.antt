-- ===== src/Client/Reconnection.antt =====
-- How a reconnection ends when the socket is connected again.
use socket_io_java.Common.{
  Bool, true, false, none, ◌≡◌, refl, ap, ◌∙◌, Text, List, [], ◌∷◌, if◌then◌else◌, arith, codes,
  ◌==◌, text_eq, nat_eq,
}
use socket_io_java.Parser.Packet.{Packet}
use socket_io_java.Client.State.{Client, Namespace, Closure, Output, put, emits}
use socket_io_java.Client.Namespaces.{namespace_packet, connect_packet}
use socket_io_java.Client.Opening.{
  rejoin, greet, settle, reset, resume, arrive, emit_connect, on_connect, without,
}
use socket_io_java.Client.Frame.Buffering.{arrive-buffered}

-- What the state has of a reconnection.
record SameReconnection (s t : Client) : Type 0 where
  options : t.options ≡ s.options
  reconnecting : t.reconnecting ≡ s.reconnecting
  closures : t.closures ≡ s.closures
  connected : t.connected ≡ s.connected

SameReconnection-trans :
    {s t u : Client} → SameReconnection s t → SameReconnection t u → SameReconnection s u
SameReconnection-trans g h = record {
  options = h.options ∙ g.options;
  reconnecting = h.reconnecting ∙ g.reconnecting;
  closures = h.closures ∙ g.closures;
  connected = h.connected ∙ g.connected;
}

namespace_packet-SameReconnection :
    (key : Text) (n : Namespace) (p : Packet) (s : Client)
    → SameReconnection s (namespace_packet key n p s)
unfolding namespace_packet
namespace_packet-SameReconnection key n p s = ground arith

rejoin-SameReconnection :
    (ns : List (Text × Namespace)) (s : Client) → SameReconnection s (rejoin ns s)
unfolding rejoin
rejoin-SameReconnection [] s = record {
  options = refl;
  reconnecting = refl;
  closures = refl;
  connected = refl;
}
rejoin-SameReconnection ((key, n) ∷ ns) s =
    SameReconnection-trans (one (key == [])) (rejoin-SameReconnection ns _)
  where
    one : (b : Bool) → SameReconnection s (if b then s else namespace_packet key n connect_packet s)
    one true = record { options = refl; reconnecting = refl; closures = refl; connected = refl }
    one false = namespace_packet-SameReconnection key n connect_packet s

-- The closures of a socket that does not reconnect do nothing.
resume_idle : (cs : List Closure) (s : Client) → s.reconnecting ≡ false → resume cs s ≡ s
unfolding resume
resume_idle [] s h = refl
resume_idle (c ∷ cs) s h = idle s.reconnecting (reset c s) h ∙ resume_idle cs s h
  where
    idle : (b : Bool) (t : Client) → b ≡ false → resume cs (if b then t else s) ≡ resume cs s
    idle b t e = simp e

reset_idle : (c : Closure) (s : Client) → (reset c s).reconnecting ≡ false
unfolding reset settle
reset_idle c s = refl

-- The first closure resets, and the others find a socket that does not reconnect.
resume_first :
    (c : Closure) (cs : List Closure) (s : Client)
    → s.reconnecting ≡ true
    → resume (c ∷ cs) s ≡ reset c s
unfolding resume
resume_first c cs s h =
    first s.reconnecting (reset c s) h ∙ resume_idle cs (reset c s) (reset_idle c s)
  where
    first : (b : Bool) (t : Client) → b ≡ true → resume cs (if b then t else s) ≡ resume cs t
    first b t e = simp e

greet-SameReconnection : (s : Client) → SameReconnection s (greet s)
unfolding greet
greet-SameReconnection s = one s.connected _
  where
    g : SameReconnection s (rejoin s.namespaces s)
    g = rejoin-SameReconnection s.namespaces s

    one :
        (b : Bool) (o : Output)
        → SameReconnection s (if b then put o (rejoin s.namespaces s) else s)
    one true o = record {
      options = g.options;
      reconnecting = g.reconnecting;
      closures = g.closures;
      connected = g.connected;
    }
    one false o = record { options = refl; reconnecting = refl; closures = refl; connected = refl }

arrive-SameReconnection :
    (s : Client) → SameReconnection (record s { connected = true; connecting = false }) (arrive s)
arrive-SameReconnection s =
    let e = arrive-buffered s in
    record {
      options = ap (λ t. t.options) e;
      reconnecting = ap (λ t. t.reconnecting) e;
      closures = ap (λ t. t.closures) e;
      connected = ap (λ t. t.connected) e;
    }

module _ (c : Closure) (s : Client) where
  reset_connected : (reset c s).connected ≡ (greet s).connected
  unfolding reset settle
  reset_connected = refl

  reset_clear : (reset c s).reconnection ≡ none
  unfolding reset settle
  reset_clear = refl

  reset_options : (reset c s).options.try_multiple ≡ c.try_multiple
  unfolding reset settle
  reset_options = refl

  reset_closures : (reset c s).closures ≡ without c.identity (greet s).closures
  unfolding reset settle
  reset_closures = refl

-- A socket that is reconnecting and connects again is connected and no longer reconnects. Of the closures that wait for
-- 'connect', the first alone takes effect: 'try multiple transports' becomes what that closure captured, and it alone
-- is taken off the list, whatever was registered after it.
pub on_connect_outcome :
    (s : Client) (c : Closure) (cs : List Closure)
    → s.connected ≡ false
    → s.reconnecting ≡ true
    → s.closures ≡ c ∷ cs
    → let s' = on_connect s in
      (s'.connected ≡ true)
      × (s'.reconnecting ≡ false)
      × (s'.reconnection ≡ none)
      × (s'.options.try_multiple ≡ c.try_multiple)
      × (s'.closures ≡ without c.identity (c ∷ cs))
unfolding on_connect emit_connect
on_connect_outcome s c cs h r k = open_again s.connected h
  where
    a : SameReconnection (record s { connected = true; connecting = false }) (arrive s)
    a = arrive-SameReconnection s

    u : Client
    u = put (emits (codes "connect")) (arrive s)

    g : SameReconnection u (greet u)
    g = greet-SameReconnection u

    e : resume (arrive s).closures u ≡ reset c u
    e = ap (λ l. resume l u) (a.closures ∙ k) ∙ resume_first c cs u (a.reconnecting ∙ r)

    open_again :
        (b : Bool)
        → b ≡ false
        → let s' = (if b then s else emit_connect (arrive s)) in
          (s'.connected ≡ true)
          × (s'.reconnecting ≡ false)
          × (s'.reconnection ≡ none)
          × (s'.options.try_multiple ≡ c.try_multiple)
          × (s'.closures ≡ without c.identity (c ∷ cs))
    open_again b i = rw i (
      ap (λ t. t.connected) e ∙ reset_connected c u ∙ g.connected ∙ a.connected,
      ap (λ t. t.reconnecting) e ∙ reset_idle c u,
      ap (λ t. t.reconnection) e ∙ reset_clear c u,
      ap (λ t. t.options.try_multiple) e ∙ reset_options c u,
      ap (λ t. t.closures) e
          ∙ reset_closures c u
          ∙ ap (without c.identity) (g.closures ∙ a.closures ∙ k),
    )
