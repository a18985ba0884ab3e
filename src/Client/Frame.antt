-- ===== src/Client/Frame.antt =====
-- A relation between the states before and after: if the smallest steps of the client keep to it, so do its operations.
pub mod Attached
pub mod Buffering
pub mod Sending
pub mod Closing
pub mod Connecting
pub mod Receiving
pub mod Arriving
pub mod Handling
pub mod Running
use socket_io_java.Common.{
  All-lookup, All-always, ℕ, Bool, true, false, Option, none, some, List, [], ◌∷◌, ◌≡◌, refl, Text,
  if◌then◌else◌, All, lookup, delete, Option-cases, inl, inr, ◌==◌, text_eq, nat_eq,
}
use socket_io_java.Parser.Packet.{Packet}
use socket_io_java.Parser.Encode.{or_empty}
use socket_io_java.Client.State.{
  Client, Namespace, Transport, Closure, Output, put, raise, transmits, hands,
}
use socket_io_java.Client.Buffer.{packet, set_buffer}
use socket_io_java.Client.Close.{
  set_transport, release, has_iframe, transport_on_close_with, mark_closed, reconnect, shut,
}
use socket_io_java.Client.Namespaces.{
  set_namespace, new_namespace, namespace_at, with_callback, key_of,
}
use socket_io_java.Client.Opening.{settle, arrive}

-- The packets of the messages in a log; the answers to heartbeats do not count.
abbrev pub packets_of : Output → List Packet
packets_of (transmits ps) = ps
packets_of _ = []

-- What a step puts into the log that is neither a message nor a call of Socket.packet.
abbrev pub IsSilent : Output → Type 0
IsSilent (transmits ps) = ⊥
IsSilent (hands p) = ⊥
IsSilent _ = Unit

-- What a relation says of the namespaces: what each fits by its key in the states that are followed.
pub record Naming (Rel : Client → Client → Type 0) : Type 1 where
  pub Fits : Text → Namespace → Type 0
  pub Knows : Client → Type 0
  pub knows_all : (s : Client) → Knows s → All (λ e. Fits e.0 e.1) s.namespaces
  pub new_fits :
      (s : Client) (key name : Text)
      → Knows s
      → lookup key s.namespaces ≡ none
      → Fits key (new_namespace name)
  pub flag_fits :
      (b : Bool) (key : Text) (n : Namespace) → Fits key n → Fits key (record n { json = b })
  pub callback_fits :
      (fn : ℕ) (key : Text) (n : Namespace) → Fits key n → Fits key (with_callback n fn)
  pub delete_fits :
      (id key : Text) (n : Namespace) → Fits key n → Fits key (record n { acks = delete id n.acks })
  pub assumes : (s t : Client) → (Knows s → Rel s t) → Rel s t

-- Nothing is said of them.
abbrev pub unnamed : (Rel : Client → Client → Type 0) → Naming Rel
unnamed Rel = record {
  Fits = λ key n. Unit;
  Knows = λ s. Unit;
  knows_all = λ s k. All-always (λ _. Unit) (λ _. tt) s.namespaces;
  new_fits = λ s key name k e. tt;
  flag_fits = λ b key n f. tt;
  callback_fits = λ fn key n f. tt;
  delete_fits = λ id key n f. tt;
  assumes = λ s t k. k tt;
}

pub record Frame : Type 1 where
  pub Rel : Client → Client → Type 0
  pub naming : Naming Rel
  pub same : (s : Client) → Rel s s
  pub chain : (s t u : Client) → Rel s t → Rel t u → Rel s u
  pub puts : (o : Output) (s : Client) → IsSilent o → Rel s (put o s)
  pub raises : (s : Client) → Rel s (raise s)
  pub sends : (p : Packet) (s : Client) → Rel s (packet p s)
  pub flushes : (v : Bool) (s : Client) → Rel s (set_buffer v s)
  pub names :
      (key : Text) (n : Namespace)
      → naming.Fits key n
      → (s : Client) → Rel s (set_namespace key n s)
  pub closes_up :
      (finish : Client → Client)
      → ((s : Client) → Rel s (finish s))
      → (s : Client) → Rel s (transport_on_close_with finish s)
  pub drops_iframe : (s : Client) → Rel s (release has_iframe s)
  pub times :
      (b : Bool) (s : Client) (t : Transport)
      → s.transport ≡ some t
      → Rel s (set_transport s (record t { close_timer = b }))
  pub marks : (s : Client) → Rel s (mark_closed s)
  pub reconnects : (s : Client) → Rel s (reconnect s)
  pub shuts : (s : Client) → Rel s (shut s)
  pub settles : (c : Closure) (s : Client) → Rel s (settle c s)
  pub arrives : (s : Client) → s.connected ≡ false → Rel s (arrive s)
  pub connects : (s : Client) → Rel s (record s { connect_timer = false })
  pub beats_on : (b : Bool) (s : Client) → Rel s (record s { heartbeat_timer = b })
  pub calms : (s : Client) → Rel s (record s { raised = false })
  pub posts : (s : Client) → Rel s (record s { do_buffer = true })

module _ (F : Frame) where
  open F use {Rel, chain, naming}
  open naming use {Fits, Knows, knows_all, new_fits, assumes}

  abbrev pub Keeps : (Client → Client) → Type 0
  Keeps f = (s : Client) → Rel s (f s)

  pub Rel-trans : {s t u : Client} → Rel s t → Rel t u → Rel s u
  Rel-trans {s} {t} {u} g h = chain s t u g h

  -- A split on a test, with its value.
  pub Rel-if :
      (b : Bool) {s t u : Client}
      → (b ≡ true → Rel s t)
      → (b ≡ false → Rel s u)
      → Rel s (if b then t else u)
  Rel-if true g h = g refl
  Rel-if false g h = h refl

  -- A step on the namespace of a name, which fits as all of them do.
  pub Rel-at :
      (name : Option Text) (f : Namespace → Client → Client)
      → ((n : Namespace) → Fits (key_of name) n → Keeps (f n))
      → (s : Client) → Rel s (f (namespace_at name s) s)
  unfolding namespace_at
  Rel-at name f k s = assumes s _ (λ h. elim (Option-cases (lookup (key_of name) s.namespaces)) [
    | inl e ↦
        rw (e, namespace_at)
          (k (new_namespace (or_empty name)) (new_fits s (key_of name) (or_empty name) h e) s)
    | inr (n, e) ↦
        rw (e, namespace_at)
          (k n (All-lookup (λ m. Fits m.0 m.1) (key_of name) n s.namespaces (knows_all s h) e) s)
  ])
