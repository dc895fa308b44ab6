-- ===== src/Connection/Limits.antt =====
-- The limit on the failed authentications of a connection of backend/pipa_core/connection.py.
use pipa_personal_assistant.Prelude.{
  ℕ, ◌≤◌, ◌<◌, ◌≡◌, ◌⊎◌, inl, inr, String, true, Option, none, some, List, [], ◌∷◌, if◌then◌else◌,
  Result, ok, err, arith, Bool-cases,
}
use pipa_personal_assistant.Protocol.{ClientMessage, challenge_request, hello}
use pipa_personal_assistant.Sessions.{DeviceSession}
use pipa_personal_assistant.Core.State.{
  Core, Config, Tick, Draw, AuthenticationError, session_limit, not_authorized, authenticate,
  create_challenge,
}
use pipa_personal_assistant.TrustedUnlock.Data.{TrustedUnlockError, Challenge}
use pipa_personal_assistant.Connection.{
  Connection, ConnectionResult, Arrival, is_too_soon, max_auth_failures, authentication_failure,
  made_challenge, request_challenge, authenticated, authenticate_connection, process_authenticated,
  process_known, process_message, process,
}

-- The messages of a connection, which the transport ends at the first result that closes it.
module _ {W : Type 0} (cfg : Config W) where
  unfoldable pub drive : List Arrival → Connection → Core W → Connection × Core W
  drive [] k c = (k, c)
  drive (i ∷ is) k c =
      let (r, k', c') = process cfg i k c in
      let rest = drive is k' c' in if r.close then (k', c') else rest

-- the connection is closed or has failed less often than the limit
abbrev IsTolerated : ConnectionResult → Connection → Type 0
IsTolerated r k =
    ((r.close ≡ true) × (k.auth_failures ≤ max_auth_failures))
    ⊎ (k.auth_failures < max_auth_failures)

failure-IsTolerated :
    (k : Connection)
    → k.auth_failures < max_auth_failures
    → let (r, k') = authentication_failure k in IsTolerated r k'
unfolding authentication_failure
failure-IsTolerated k h = ground arith

made-IsTolerated :
    (m : Result TrustedUnlockError Challenge) (k : Connection)
    → k.auth_failures < max_auth_failures
    → let (r, k') = made_challenge m k in IsTolerated r k'
unfolding made_challenge
made-IsTolerated (err e) k h = failure-IsTolerated k h
made-IsTolerated (ok c) k h = inr h

authenticated-IsTolerated :
    (r : Result AuthenticationError DeviceSession) (k : Connection)
    → k.auth_failures < max_auth_failures
    → let (r', k') = authenticated r k in IsTolerated r' k'
unfolding authenticated authentication_failure
authenticated-IsTolerated (ok s) k h = inr (omega arith)
authenticated-IsTolerated (err (session_limit e)) k h = inr h
authenticated-IsTolerated (err not_authorized) k h = failure-IsTolerated k h

module _ {W : Type 0} where
  request-IsTolerated :
      (now : ℕ) (d : Draw) (device : String) (id : Option String) (k : Connection) (c : Core W)
      → k.auth_failures < max_auth_failures
      → let (r, k', c') = request_challenge now d device id k c in IsTolerated r k'
  unfolding request_challenge
  request-IsTolerated now d device (some id) k c h = inr h
  request-IsTolerated now d device none k c h =
      elim (Bool-cases (is_too_soon now k.last_challenge_at)) [
        | inl b ↦ rw (b) (inr h)
        | inr b ↦ rw (b) (
            made-IsTolerated (create_challenge d device c).0
              (record k { last_challenge_at = some now }) h)
      ]

module _ {W : Type 0} (cfg : Config W) where
  known-IsTolerated :
      (t : Tick) (id : Option String) (m : ClientMessage) (k : Connection) (c : Core W)
      → k.auth_failures < max_auth_failures
      → let (r, k', c') = process_known cfg t id m k c in IsTolerated r k'
  unfolding process_known authenticate_connection process_authenticated
  known-IsTolerated t none (hello device challenge_id signature firmware capabilities) k c h =
      authenticated-IsTolerated (authenticate cfg t _ firmware capabilities c).0 k h
  known-IsTolerated t none m k c h = inr h
  known-IsTolerated t (some id) (hello _ _ _ _ _) k c h = inr h
  known-IsTolerated t (some id) m k c h = inr h

  message-IsTolerated :
      (now : ℕ) (t : Tick) (d : Draw) (m : ClientMessage) (k : Connection) (c : Core W)
      → k.auth_failures < max_auth_failures
      → let (r, k', c') = process_message cfg now t d m k c in IsTolerated r k'
  unfolding process_message
  message-IsTolerated now t d (challenge_request device) k c h =
      request-IsTolerated now d device k.session_id k c h
  message-IsTolerated now t d m k c h = known-IsTolerated t k.session_id m k c h

  process-IsTolerated :
      (i : Arrival) (k : Connection) (c : Core W)
      → k.auth_failures < max_auth_failures
      → let (r, k', c') = process cfg i k c in IsTolerated r k'
  unfolding process
  process-IsTolerated i k c h =
      message-IsTolerated i.clock i.tick i.draw i.message (record k { last_activity_at = i.clock })
        c h

  pub drive_failures :
      (is : List Arrival) (k : Connection) (c : Core W)
      → k.auth_failures < max_auth_failures
      → (drive cfg is k c).0.auth_failures ≤ max_auth_failures
  unfolding drive
  drive_failures [] k c h = omega arith
  drive_failures (i ∷ is) k c h =
      let x = process cfg i k c in
      let t = process-IsTolerated i k c h in
      let rest = drive_failures is x.1 x.2 in
      elim (Bool-cases x.0.close) [
        | inl e ↦ rw (drive, e) (elim t [ inl (_, few) ↦ few | inr few ↦ omega arith ])
        | inr e ↦ rw (drive, e) (rest (elim t [ inl (closed, _) ↦ absurd (cc) | inr few ↦ few ]))
      ]
