-- ===== src/Dispatch/Tests.antt =====
-- A mail in a system of two universes.
use claude_email.Prelude.{ℕ, [], ◌∷◌, ◌≡◌, ◌⊎◌, refl}
use claude_email.Mime.Tests.{letter}
use claude_email.Inbox.Tests.{outside, config, world, exact}
use claude_email.Universes.Tests.{primary, test}
use claude_email.Dispatch.{System, dispatch_by_sender}
use claude_email.Dispatch.Isolation.{IsOwn, dispatch_by_sender-IsOwn}

abbrev system : System Unit
system = record { worlds = λ j. world; outer = world }

dispatch_by_sender-IsOwn_example :
    let s' =
      (dispatch_by_sender outside 5 "" config
        (primary ∷ test ∷ [])
        (letter "" "AUTH:keystatus")
        system).1 in
    (s'.outer ≡ world)
    × ((j : ℕ)
        → (s'.worlds j ≡ world)
          ⊎ IsOwn outside exact 5 "" config
              (primary ∷ test ∷ [])
              (letter "" "AUTH:keystatus")
              system
              j)
dispatch_by_sender-IsOwn_example =
    dispatch_by_sender-IsOwn outside exact 5 "" config (primary ∷ test ∷ [])
      (letter "" "AUTH:keystatus") system refl
