-- ===== src/Client/Frame/Connecting.antt =====
-- Opening a connection, under a frame.
use socket_io_java.Common.{All, Text, List, [], ◌∷◌, ◌==◌, text_eq, nat_eq, codes}
use socket_io_java.Client.State.{Namespace, Closure, publishes, emits}
use socket_io_java.Client.Namespaces.{namespace_packet, connect_packet}
use socket_io_java.Client.Opening.{greet, arrive, emit_connect, rejoin, reset, resume, on_connect}
use socket_io_java.Client.Frame.{Frame, Keeps, Rel-trans, Rel-if}
use socket_io_java.Client.Frame.Sending.{Keeps-namespace_packet}

module _ (F : Frame) where
  open F use {same, puts, settles, arrives, connects, naming}
  open naming use {Fits, knows_all, assumes}

  Keeps-rejoin : (ns : List (Text × Namespace)) → All (λ e. Fits e.0 e.1) ns → Keeps F (rejoin ns)
  unfolding rejoin
  Keeps-rejoin [] h s = same s
  Keeps-rejoin ((key, n) ∷ ns) h s =
      Rel-trans F
        (Rel-if F (key == []) {s = s} {t = s} {u = namespace_packet key n connect_packet s}
          (λ _. same s) (λ _. Keeps-namespace_packet F key n connect_packet h.0 s))
        (Keeps-rejoin ns h.1 _)

  Keeps-greet : Keeps F greet
  unfolding greet
  Keeps-greet s =
      Rel-if F s.connected
        (λ _.
          Rel-trans F
            (assumes s (rejoin s.namespaces s) (λ h. Keeps-rejoin s.namespaces (knows_all s h) s))
            (puts (publishes _ _) (rejoin s.namespaces s) tt))
        (λ _. same s)

  Keeps-reset : (c : Closure) → Keeps F (reset c)
  unfolding reset
  Keeps-reset c s = Rel-trans F (Keeps-greet s) (settles c (greet s))

  Keeps-resume : (cs : List Closure) → Keeps F (resume cs)
  unfolding resume
  Keeps-resume [] s = same s
  Keeps-resume (c ∷ cs) s =
      Rel-trans F
        (Rel-if F s.reconnecting {s = s} {t = reset c s} {u = s} (λ _. Keeps-reset c s)
          (λ _. same s))
        (Keeps-resume cs _)

  Keeps-emit_connect : Keeps F emit_connect
  unfolding emit_connect
  Keeps-emit_connect s =
      Rel-trans F (puts (emits (codes "connect")) s tt)
        (Rel-trans F (Keeps-resume s.closures _) (connects _))

  pub Keeps-on_connect : Keeps F on_connect
  unfolding on_connect
  Keeps-on_connect s =
      Rel-if F s.connected (λ _. same s)
        (λ e. Rel-trans F (arrives s e) (Keeps-emit_connect (arrive s)))
