-- ===== src/Examples/Connecting.antt =====
-- The theorems on connections, applied to one connection.
use mathlib.Core.Option
use pipa_personal_assistant.Prelude.{◌≤◌, ◌≡◌, refl, String, true, none, some, [], ◌∷◌, Bool, false}
use pipa_personal_assistant.Prelude.Dict.{lookup, count_where}
use pipa_personal_assistant.Protocol.{ClientMessage, challenge_request, hello, wake}
use pipa_personal_assistant.Protocol.Server.{idle, error}
use pipa_personal_assistant.Confirmations.{is_owned_by}
use pipa_personal_assistant.Sessions.{create, prune, is_stale, check_limits, new_session}
use pipa_personal_assistant.Core.State.{
  authenticate, open_session, opened, prune_stale, cancel_each, verify, authorized,
}
use pipa_personal_assistant.Connection.{
  Connection, Arrival, ConnectionResult, authentication_failure, open_connection, process,
  process_message, process_known, authenticate_connection, authenticated, close_connection,
}
use pipa_personal_assistant.Connection.Limits.{drive}
use pipa_personal_assistant.Connection.Closing.{ClosesAtThird, answers, open-drive-failures}
use pipa_personal_assistant.Connection.BeforeHello.{IsUnreached, drive_before_hello, is_hello}
use pipa_personal_assistant.TrustedUnlock.Data.{new_challenge}
use pipa_personal_assistant.TrustedUnlock
use pipa_personal_assistant.TrustedUnlock.{
  verify_response, verify_found, check_response, check_signature,
}
use pipa_personal_assistant.Connection.Challenges.{
  IsSpaced, challenge_times, challenge_times-IsSpaced,
}
use pipa_personal_assistant.Connection.Opening.{named_device, process_opens, close_leaves_nothing}
use pipa_personal_assistant.Examples.{router, waiting_router, core, config, tick, draw}
use pipa_personal_assistant.Examples.Running.{core-Inv}

abbrev arrival : ClientMessage → Arrival
arrival m = record { clock = 5000; tick = tick; draw = draw; message = m }

abbrev forged : ClientMessage
forged = hello "d2" "h1" "gis" none ("display" ∷ [])

abbrev refused : Bool → ConnectionResult
refused closes = record { responses = error "authentication_failed" ∷ []; close = closes }

abbrev greeting : ClientMessage
greeting = hello "d2" "h1" "sig" none ("display" ∷ [])

open-drive-failures_example :
    let c = core idle true router in
    let is = arrival forged ∷ arrival wake ∷ arrival greeting ∷ [] in
    ClosesAtThird 0 (answers config is (open_connection 4000) c)
    × ((drive config is (open_connection 4000) c).0.auth_failures ≤ 3)
open-drive-failures_example =
    open-drive-failures config (arrival forged ∷ arrival wake ∷ arrival greeting ∷ []) 4000
      (core idle true router)

-- the third forged signature closes the connection, which answers nothing any more
third_closes :
    answers config
      (arrival forged ∷ arrival forged ∷ arrival forged ∷ arrival greeting ∷ [])
      (open_connection 4000)
      (core idle true router)
    ≡ refused false ∷ refused false ∷ refused true ∷ []
unfolding answers open_connection process process_message process_known authenticate_connection
    authenticate verify authorized open_session opened prune_stale prune is_stale cancel_each
    authenticated authentication_failure verify_response verify_found check_response check_signature
    TrustedUnlock.prune new_challenge
third_closes = refl

drive_before_hello_example :
    let (k', c') =
      drive config
        (arrival (challenge_request "d2") ∷ arrival wake ∷ [])
        (open_connection 4000)
        (core idle true router) in
    IsUnreached config (core idle true router) c' × (k'.session_id ≡ none)
unfolding is_hello open_connection
drive_before_hello_example =
    drive_before_hello config (arrival (challenge_request "d2") ∷ arrival wake ∷ [])
      (open_connection 4000) (core idle true router) (refl, (refl, tt)) refl

challenge_times-IsSpaced_example : IsSpaced none (
    challenge_times config
      (arrival (challenge_request "d2") ∷ arrival (challenge_request "d2") ∷ [])
      (open_connection 4000)
      (core idle true router))
unfolding open_connection
challenge_times-IsSpaced_example =
    challenge_times-IsSpaced config
      (arrival (challenge_request "d2") ∷ arrival (challenge_request "d2") ∷ [])
      (open_connection 4000) (core idle true router)

process_opens_example :
    (is_hello greeting ≡ true)
    × ((device : String) × (named_device config tick greeting (core idle true router) ≡ some device)
        × (Option.map
              (λ s. s.device_id)
              (lookup "c2"
                (process config
                  (arrival greeting)
                  (open_connection 4000)
                  (core idle true router)).2.sessions)
            ≡ some device))
unfolding open_connection process process_message process_known authenticate_connection authenticate
    verify authorized verify_response verify_found check_response check_signature
    TrustedUnlock.prune TrustedUnlock.authorization new_challenge open_session opened prune_stale
    prune is_stale cancel_each create check_limits new_session authenticated
process_opens_example =
    process_opens config (arrival greeting) (open_connection 4000) (core idle true router) "c2" refl
      refl

abbrev connected : Connection
connected = record {
  session_id = some "s1";
  auth_failures = 0;
  last_challenge_at = none;
  connected_at = 4000;
  last_activity_at = 5000;
}

close_leaves_nothing_example :
    let (k', c') = close_connection connected (core idle true waiting_router) in
    (k'.session_id ≡ none)
    × (lookup "s1" c'.sessions ≡ none)
    × (count_where (is_owned_by (some "s1")) c'.router.confirmations.pending ≡ 0)
close_leaves_nothing_example =
    close_leaves_nothing connected (core idle true waiting_router) "s1" core-Inv refl refl
