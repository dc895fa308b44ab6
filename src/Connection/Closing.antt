-- ===== src/Connection/Closing.antt =====
-- When the connection of backend/pipa_core/connection.py closes: the failed authentications that the
-- client sees are counted from its answers.
use pipa_personal_assistant.Prelude.{
  ℕ, ◌+◌, ◌≤◌, ◌≡◌, refl, ◌⊎◌, inl, inr, Bool, true, false, Option, none, some, List, [], ◌∷◌,
  if◌then◌else◌, Result, ok, err, arith, Bool-cases, ◌==◌, leb, subst, String,
}
use pipa_personal_assistant.Protocol.{ClientMessage, challenge_request, hello}
use pipa_personal_assistant.Protocol.Server.{ServerMessage, error, ready}
use pipa_personal_assistant.Sessions.{DeviceSession}
use pipa_personal_assistant.Core.State.{
  Core, Config, Tick, Draw, AuthenticationError, session_limit, not_authorized, authenticate,
  create_challenge,
}
use pipa_personal_assistant.TrustedUnlock.Data.{TrustedUnlockError, Challenge}
use pipa_personal_assistant.Connection.{
  Connection, ConnectionResult, Arrival, max_auth_failures, open_connection, authentication_failure,
  is_too_soon, made_challenge, request_challenge, authenticated, authenticate_connection,
  process_known, process_message, process,
}
use pipa_personal_assistant.Connection.Limits.{drive, drive_failures}

-- what the client sees of an authentication
pub data Outcome : Type 0 where
  failed succeeded other : Outcome

unfoldable pub outcome : List ServerMessage → Outcome
outcome (error code ∷ []) = if code == "authentication_failed" then failed else other
outcome (ready _ _ ∷ []) = succeeded
outcome _ = other

-- what one answer says of the close, after `n` failures: the rest is in `next` with one more failure
-- and in `same` without
unfoldable pub ClosesBy : Outcome → Bool → ℕ → Type 0 → Type 0 → Type 0
ClosesBy failed close n next same = (close ≡ leb 3 (n + 1)) × next
ClosesBy succeeded close n next same = Unit
ClosesBy other close n next same = same

-- After `n` failures and until it authenticates, a failed authentication closes the connection if
-- it is the third, and not if it is an earlier one.
unfoldable pub ClosesAtThird : ℕ → List ConnectionResult → Type 0
unfolding ClosesBy
ClosesAtThird n [] = Unit
ClosesAtThird n (r ∷ rs) =
    ClosesBy (outcome r.responses) r.close n (ClosesAtThird (n + 1) rs) (ClosesAtThird n rs)

-- The answers of a connection, up to the first that closes it.
module _ {W : Type 0} (cfg : Config W) where
  unfoldable pub answers : List Arrival → Connection → Core W → List ConnectionResult
  answers [] k c = []
  answers (i ∷ is) k c =
      let (r, k', c') = process cfg i k c in
      let rest = answers is k' c' in r ∷ (if r.close then [] else rest)

-- one answer of a connection that is not authenticated
Counted : ConnectionResult → Connection → Connection → Type 0
Counted r k k' =
    ((outcome r.responses ≡ failed)
      × (r.close ≡ leb 3 (k.auth_failures + 1))
      × (k'.auth_failures ≡ k.auth_failures + 1)
      × (k'.session_id ≡ none))
    ⊎ (outcome r.responses ≡ succeeded)
    ⊎ ((outcome r.responses ≡ other)
        × (k'.auth_failures ≡ k.auth_failures)
        × (k'.session_id ≡ none))

failure-Counted :
    (k : Connection)
    → k.session_id ≡ none
    → let (r, k') = authentication_failure k in Counted r k k'
unfolding authentication_failure Counted outcome
failure-Counted k u = inl (refl, refl, refl, u)

made-Counted :
    (m : Result TrustedUnlockError Challenge) (k : Connection)
    → k.session_id ≡ none
    → let (r, k') = made_challenge m k in Counted r k k'
unfolding made_challenge Counted outcome
made-Counted (err e) k u = failure-Counted k u
made-Counted (ok c) k u = inr (inr (refl, refl, u))

authenticated-Counted :
    (r : Result AuthenticationError DeviceSession) (k : Connection)
    → k.session_id ≡ none
    → let (r', k') = authenticated r k in Counted r' k k'
unfolding authenticated Counted outcome
authenticated-Counted (ok s) k u = inr (inl refl)
authenticated-Counted (err (session_limit e)) k u = inr (inr (refl, refl, u))
authenticated-Counted (err not_authorized) k u = failure-Counted k u

module _ {W : Type 0} (cfg : Config W) where
  request-Counted :
      (now : ℕ) (d : Draw) (device : String) (id : Option String) (k : Connection) (c : Core W)
      → id ≡ none
      → k.session_id ≡ none
      → let (r, k', c') = request_challenge now d device id k c in Counted r k k'
  unfolding request_challenge Counted outcome
  request-Counted now d device (some id) k c e u = absurd (cc)
  request-Counted now d device none k c e u =
      elim (Bool-cases (is_too_soon now k.last_challenge_at)) [
        | inl b ↦ rw (b) (inr (inr (refl, refl, u)))
        | inr b ↦ rw (b) (
            made-Counted (create_challenge d device c).0 (record k { last_challenge_at = some now })
              u)
      ]

  known-Counted :
      (t : Tick) (id : Option String) (m : ClientMessage) (k : Connection) (c : Core W)
      → id ≡ none
      → k.session_id ≡ none
      → let (r, k', c') = process_known cfg t id m k c in Counted r k k'
  unfolding process_known authenticate_connection Counted outcome
  known-Counted t (some id) m k c e u = absurd (cc)
  known-Counted t none (hello device challenge_id signature firmware capabilities) k c e u =
      authenticated-Counted (authenticate cfg t _ firmware capabilities c).0 k u
  known-Counted t none m k c e u = inr (inr (refl, refl, u))

  message-Counted :
      (now : ℕ) (t : Tick) (d : Draw) (m : ClientMessage) (k : Connection) (c : Core W)
      → k.session_id ≡ none
      → let (r, k', c') = process_message cfg now t d m k c in Counted r k k'
  unfolding process_message
  message-Counted now t d (challenge_request device) k c u =
      request-Counted now d device k.session_id k c u u
  message-Counted now t d m k c u = known-Counted t k.session_id m k c u u

  process-Counted :
      (i : Arrival) (k : Connection) (c : Core W)
      → k.session_id ≡ none
      → let (r, k', c') = process cfg i k c in Counted r k k'
  unfolding process Counted
  process-Counted i k c u =
      message-Counted i.clock i.tick i.draw i.message (record k { last_activity_at = i.clock }) c u

  -- the answers that follow one which may close the connection
  following :
      (n : ℕ) (close : Bool) (rs : List ConnectionResult)
      → ClosesAtThird n rs
      → ClosesAtThird n (if close then [] else rs)
  unfolding ClosesAtThird
  following n true rs h = tt
  following n false rs h = h

  answers-ClosesAtThird :
      (is : List Arrival) (k : Connection) (c : Core W)
      → k.session_id ≡ none
      → ClosesAtThird k.auth_failures (answers cfg is k c)
  unfolding answers ClosesAtThird ClosesBy Counted
  answers-ClosesAtThird [] k c u = tt
  answers-ClosesAtThird (i ∷ is) k c u =
      let x = process cfg i k c in
      let rest = answers-ClosesAtThird is x.1 x.2 in
      elim (process-Counted i k c u) [
        | inl (o, closes, more, out) ↦
            rw (o, ClosesBy)
              (
                closes,
                following (k.auth_failures + 1) x.0.close _
                    (subst (λ n. ClosesAtThird n (answers cfg is x.1 x.2)) more (rest out)),
              )
        | inr (inl o) ↦ rw (o, ClosesBy) tt
        | inr (inr (o, same, out)) ↦
            rw (o, ClosesBy)
              (following k.auth_failures x.0.close _
                (subst (λ n. ClosesAtThird n (answers cfg is x.1 x.2)) same (rest out)))
      ]

  -- However the messages come, until a new connection authenticates,
  -- its third answer `authentication_failed` closes it and the first two do not; and it never counts
  -- more than three failures since its last success.
  pub open-drive-failures :
      (is : List Arrival) (now : ℕ) (c : Core W)
      → ClosesAtThird 0 (answers cfg is (open_connection now) c)
        × ((drive cfg is (open_connection now) c).0.auth_failures ≤ max_auth_failures)
  unfolding open_connection
  open-drive-failures is now c = (
    answers-ClosesAtThird is (open_connection now) c refl,
    drive_failures cfg is (open_connection now) c (omega arith),
  )
