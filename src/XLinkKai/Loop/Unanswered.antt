-- ===== src/XLinkKai/Loop/Unanswered.antt =====
-- The thread of `XLinkKaiConnection` when a request to connect is not answered.
use cwusb.Base.{
  ℕ, ◌+◌, ◌<◌, ◌≤◌, ◌≡◌, refl, ◌∙◌, inl, inr, Result-cases, false, List, [], ◌∷◌, ◌++◌, ok, arith,
}
use cwusb.XLinkKai.Protocol.{connect_string, connection_timeout}
use cwusb.XLinkKai.Connection.{Addresses, Connection, datagram}
use cwusb.XLinkKai.Loop.{Events, reset, receive_waiting, poll, pass, run}
use cwusb.XLinkKai.Loop.Recovery.{Resolves, engine, IsAsking, reconnect-IsAsking, run_two}

-- Passes before the time is over in which the socket has received nothing.
abbrev pub IsQuiet : {a : Addresses} → ℕ → List (Events a) → Type 0
IsQuiet asked [] = Unit {0}
IsQuiet asked (e ∷ es) = (e.received ≡ []) × (e.now ≤ asked + connection_timeout) × IsQuiet asked es

module _ {a : Addresses} where
  pass-waits :
      (c : Connection a) (e : Events a) {asked : ℕ}
      → IsAsking c asked
      → e.received ≡ []
      → e.now ≤ asked + connection_timeout
      → pass c e ≡ ok (c, [])
  unfolding pass poll receive_waiting
  pass-waits c e asking nothing early =
      ground (arith, asking.down, asking.asking, asking.since, nothing)

  pass-gives_up :
      (c : Connection a) (e : Events a) {asked : ℕ}
      → IsAsking c asked
      → asked + connection_timeout < e.now
      → pass c e ≡ ok (reset c, [])
  unfolding pass
  pass-gives_up c e asking late = ground (arith, asking.down, asking.asking, asking.since)

  run-cons :
      (c c' : Connection a) (e : Events a) (es : List (Events a))
      → pass c e ≡ ok (c', [])
      → run c (e ∷ es) ≡ run c' es
  unfolding run
  run-cons c c' e es h = elim (Result-cases (run c' es)) [
    | inl ((c'', out), ran) ↦ ground (arith, h, ran)
    | inr (f, failed) ↦ ground (arith, h, failed)
  ]

  -- A request to connect that is not answered is waited for without sending anything; the first
  -- two passes after 10 seconds give it up and ask again, if the address can be parsed and the
  -- socket does not fail: all that is sent is one new request, to the address and port that `Open`
  -- was given.
  pub run_unanswered :
      (c : Connection a) (asked : ℕ) (es : List (Events a)) (e₁ e₂ : Events a) (address : a.Address)
      → IsAsking c asked
      → IsQuiet asked es
      → asked + connection_timeout < e₁.now
      → Resolves c address
      → e₂.send_fails ≡ false
      → e₂.open_fails ≡ false
      → (c' : Connection a) × (run c (es ++ (e₁ ∷ e₂ ∷ []))
          ≡ ok (c', datagram (engine c address) connect_string ∷ []))
        × IsAsking c' e₂.now
        × (c'.settings_sent ≡ false)
  run_unanswered c asked [] e₁ e₂ address asking quiet late resolves sends opens =
      let (c', again, is_asking, settings) =
        reconnect-IsAsking (reset c) e₂ address refl refl resolves sends opens in
      (
        c',
        run_two c (reset c) c' e₁ e₂ [] (datagram (engine c address) connect_string ∷ [])
            (pass-gives_up c e₁ asking late) again,
        is_asking,
        settings,
      )
  run_unanswered c asked (e ∷ es) e₁ e₂ address asking (nothing, early, quiet) late resolves sends
        opens =
      let (c', ran, is_asking, settings) =
        run_unanswered c asked es e₁ e₂ address asking quiet late resolves sends opens in
      (
        c',
        run-cons c c e (es ++ (e₁ ∷ e₂ ∷ [])) (pass-waits c e asking nothing early) ∙ ran,
        is_asking,
        settings,
      )
