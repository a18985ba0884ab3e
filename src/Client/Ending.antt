-- ===== src/Client/Ending.antt =====
-- The calls of Socket.onDisconnect and of the transport's onClose, close and onDisconnect among one another end.
use socket_io_java.Common.{ℕ, zero, suc, false, Option, none, Text, ◌≡◌, ap, ◌∙◌, arith}
use socket_io_java.Client.State.{Client}
use socket_io_java.Client.Buffer.{on_close}
use socket_io_java.Client.Untouched.{mark_closed-Untouched, release-Untouched}
use socket_io_java.Client.Close.{
  release, has_xhr, has_iframe, disconnect_with, inner_disconnect, inner_on_close, inner_close,
  shut, close_with, transport_disconnect_with, transport_on_close_with, on_disconnect,
  transport_on_close, transport_close, transport_on_disconnect, stop, mark_closed,
}
use socket_io_java.Client.Layers.{transport_disconnect_closed, close_from_same}

-- The four functions.
pub data ClosingCall : Type 0 where
  socket_on_disconnect : Option Text → ClosingCall
  on_closes closes_up on_disconnects : ClosingCall

-- A call of one of them, whose calls go so many levels deep; deeper ones are what `deeper` says.
unfoldable pub unrolled : (ClosingCall → Client → Client) → ℕ → ClosingCall → Client → Client
unfolding disconnect_with transport_on_close_with close_with transport_disconnect_with
unrolled deeper zero c = deeper c
unrolled deeper (suc n) (socket_on_disconnect reason) =
    disconnect_with (unrolled deeper n closes_up) reason
unrolled deeper (suc n) on_closes = transport_on_close_with (unrolled deeper n on_disconnects)
unrolled deeper (suc n) closes_up = close_with (unrolled deeper n on_closes)
unrolled deeper (suc n) on_disconnects =
    transport_disconnect_with (unrolled deeper n closes_up)
      (unrolled deeper n (socket_on_disconnect none))

-- The functions of Client/Close.
abbrev pub ended : ClosingCall → Client → Client
ended (socket_on_disconnect reason) = on_disconnect reason
ended on_closes = transport_on_close
ended closes_up = transport_close
ended on_disconnects = transport_on_disconnect

abbrev three_more : ℕ → ℕ
three_more n = suc (suc (suc n))

abbrev five_more : ℕ → ℕ
five_more n = suc (suc (three_more n))

abbrev pub nine_more : ℕ → ℕ
nine_more n = suc (five_more (three_more n))

module _ (deeper : ClosingCall → Client → Client) (n : ℕ) where
  shut_disconnects :
      (s : Client)
      → s.connected ≡ false
      → s.connecting ≡ false
      → transport_disconnect_with stop (unrolled deeper (suc n) (socket_on_disconnect none)) s
        ≡ transport_disconnect_with stop inner_disconnect s
  unfolding transport_disconnect_with unrolled inner_disconnect disconnect_with
  shut_disconnects s h k = ground arith

  shut_on_closes :
      (s : Client)
      → s.connected ≡ false
      → s.connecting ≡ false
      → unrolled deeper (three_more n) on_closes s ≡ inner_on_close s
  unfolding unrolled inner_on_close transport_on_close_with
  shut_on_closes s c d =
      let m = mark_closed-Untouched s in
      ap (release has_xhr) (
        transport_disconnect_closed (unrolled deeper (suc n) closes_up)
          (unrolled deeper (suc n) (socket_on_disconnect none)) s
        ∙ shut_disconnects (on_close (mark_closed s)) (m.connected ∙ c) (m.connecting ∙ d))

  shut_closes_up :
      (s : Client)
      → s.connected ≡ false
      → s.connecting ≡ false
      → unrolled deeper (suc (three_more n)) closes_up s ≡ inner_close s
  unfolding unrolled inner_close close_with
  shut_closes_up s c d =
      let r = release-Untouched has_iframe s in
      close_from_same (unrolled deeper (three_more n) on_closes) inner_on_close s.transport s
        (shut_on_closes (release has_iframe s) (r.connected ∙ c) (r.connecting ∙ d))

  socket_ends :
      (reason : Option Text) (s : Client)
      → unrolled deeper (five_more n) (socket_on_disconnect reason) s ≡ on_disconnect reason s
  unfolding unrolled on_disconnect disconnect_with
  socket_ends reason s = ground (arith, shut_closes_up (shut s))

  on_closes_ends :
      (s : Client) → unrolled deeper (suc (suc (five_more n))) on_closes s ≡ transport_on_close s
  unfolding unrolled transport_on_close transport_on_close_with
  on_closes_ends s = ap (release has_xhr) (
      transport_disconnect_closed (unrolled deeper (five_more n) closes_up)
        (unrolled deeper (five_more n) (socket_on_disconnect none)) s
      ∙ ap (λ f. transport_disconnect_with stop f (on_close (mark_closed s)))
          (λ i t. socket_ends none t i))

  closes_up_ends :
      (s : Client) → unrolled deeper (five_more (three_more n)) closes_up s ≡ transport_close s
  unfolding unrolled transport_close
  closes_up_ends s = ap (λ f. close_with f s) (λ i t. on_closes_ends t i)

on_disconnects_ends :
    (deeper : ClosingCall → Client → Client) (n : ℕ) (s : Client)
    → unrolled deeper (nine_more n) on_disconnects s ≡ transport_on_disconnect s
unfolding unrolled transport_on_disconnect
on_disconnects_ends deeper n s =
    let notify = unrolled deeper (five_more (three_more n)) (socket_on_disconnect none) in
    ap (λ f. transport_disconnect_with f notify s) (λ i t. closes_up_ends deeper n t i)
    ∙ ap (λ g. transport_disconnect_with transport_close g s)
        (λ i t. socket_ends deeper (three_more n) none t i)

-- Whatever stands for deeper calls, nine levels of calls of Socket.onDisconnect and of the transport's onClose, close and
-- onDisconnect, and more levels, give what the functions of Client/Close give, in every state and for every reason: so
-- the calls end, nine levels deep at most.
pub unrolled_ends :
    (deeper : ClosingCall → Client → Client) (n : ℕ) (c : ClosingCall) (s : Client)
    → unrolled deeper (nine_more n) c s ≡ ended c s
unrolled_ends deeper n (socket_on_disconnect reason) s =
    socket_ends deeper (suc (three_more n)) reason s
unrolled_ends deeper n on_closes s = on_closes_ends deeper (suc (suc n)) s
unrolled_ends deeper n closes_up s = closes_up_ends deeper (suc n) s
unrolled_ends deeper n on_disconnects s = on_disconnects_ends deeper n s
