-- ===== src/Examples/Devices.antt =====
-- The theorems on the Core, applied to a core with one session.
use mathlib.Core.Option
use pipa_personal_assistant.Prelude.{◌≡◌, refl, true, false, none, some, [], ◌∷◌, arith}
use pipa_personal_assistant.Prelude.Dict.{lookup}
use pipa_personal_assistant.Json.{end}
use pipa_personal_assistant.Protocol.{device_hello, tool_call, wake}
use pipa_personal_assistant.Protocol.Server.{UiState, idle, error, ui_state}
use pipa_personal_assistant.Sessions.{is_stale, prune, touch, ui_message}
use pipa_personal_assistant.Sessions.Invariant.{Inv}
use pipa_personal_assistant.Core.State.{save, prune_stale, cancel_each}
use pipa_personal_assistant.Core.State.Guards.{hello_required, confirmation_required}
use pipa_personal_assistant.Core.State.Handle.{handle}
use pipa_personal_assistant.Core.State.Hello.{
  before_hello, while_waiting, handle-before_hello, handle-while_waiting,
}
use pipa_personal_assistant.Core.State.Greeting.{hello_once}
use pipa_personal_assistant.Core.State.Effects.{IsEffect, handle-IsEffect}
use pipa_personal_assistant.Examples.{router, waiting_router, session, core, config, tick, later}

one_session-Inv : Inv (("s1", session idle false) ∷ [])
one_session-Inv = record {
  unique = (refl, tt);
  filed = (refl, tt);
  bounded = omega arith;
  devices = λ d. ground arith;
}

handle-IsEffect_example :
    let c = core idle true router in
    let c' = prune_stale 110 c in
    (c'.router.world ≡ c.router.world)
    × (c'.router.catalog ≡ c.router.catalog)
    × IsEffect 110 "s1"
        (tool_call "counter" end none none)
        c'.router
        (handle config tick "s1" (tool_call "counter" end none none) c).1.router
unfolding prune_stale prune is_stale cancel_each
handle-IsEffect_example =
    handle-IsEffect config tick "s1" (tool_call "counter" end none none) (core idle true router)
      (refl, tt)

handle-before_hello_example :
    let s = touch 110 (session idle false) in
    handle config tick "s1" wake (core idle false router)
    ≡ before_hello wake s (save s (prune_stale 110 (core idle false router)))
unfolding prune_stale prune is_stale cancel_each
handle-before_hello_example =
    handle-before_hello config tick "s1" wake (core idle false router) refl refl

-- what the reference answers to a `wake`
wake_before_hello :
    before_hello wake (session idle false) (core idle false router)
    ≡ (hello_required ∷ [], core idle false router)
unfolding before_hello
wake_before_hello = refl

handle-while_waiting_example :
    let s = touch 110 (session UiState.confirm true) in
    let c = core UiState.confirm true waiting_router in
    handle config tick "s1" wake c ≡ while_waiting config tick wake s (save s (prune_stale 110 c))
unfolding prune_stale prune is_stale cancel_each
handle-while_waiting_example =
    handle-while_waiting config tick "s1" wake (core UiState.confirm true waiting_router) refl refl
      refl

-- what the reference answers to a `wake`
wake_while_waiting :
    let s = session UiState.confirm true in
    let c = core UiState.confirm true waiting_router in
    while_waiting config tick wake s c ≡ (confirmation_required ∷ ui_state (ui_message s) ∷ [], c)
unfolding while_waiting
wake_while_waiting = refl

hello_once_example :
    let c1 =
      (handle config tick "s1" (device_hello none ("display" ∷ [])) (core idle false router)).1 in
    let (out, c2) = handle config later "s1" (device_hello none ("touch" ∷ [])) c1 in
    (out ≡ error "device_hello_not_expected" ∷ [])
    × (Option.map (λ s. s.capabilities) (lookup "s1" c2.sessions) ≡ some ("display" ∷ []))
unfolding prune_stale prune is_stale cancel_each
hello_once_example =
    hello_once config tick later "s1" (core idle false router) none ("display" ∷ []) none
      ("touch" ∷ []) one_session-Inv refl refl (omega arith)
