-- ===== src/Connection/Opening.antt =====
-- How a connection of backend/pipa_core/connection.py gets its session, and what is left of it at the
-- end.
use pipa_personal_assistant.Prelude.{
  ℕ, ◌≡◌, refl, inl, inr, String, true, false, Option, none, some, List, arith, Result-cases,
  eq_refl, eq_iff,
}
use pipa_personal_assistant.Protocol.{ClientMessage, challenge_request, hello}
use pipa_personal_assistant.Sessions.{create, new_session, NewSession, check_limits, prune}
use pipa_personal_assistant.Core.State.{
  Core, Config, Tick, Draw, authenticate, open_session, opened, close, prune_stale, authorized,
  verify,
}
use pipa_personal_assistant.TrustedUnlock.{verify_response}
use pipa_personal_assistant.TrustedUnlock.Data.{SignedChallenge}
use pipa_personal_assistant.Connection.{
  Connection, Arrival, authentication_failure, authenticated, authenticate_connection,
  process_known, process_message, process, close_session, close_connection,
}
use mathlib.Core.Option
use pipa_personal_assistant.Prelude.Dict.{lookup, count_where}
use pipa_personal_assistant.Prelude.Dict.Laws.{lookup-insert, lookup-erase}
use pipa_personal_assistant.Prelude.Text.{is_empty}
use pipa_personal_assistant.Confirmations.{is_owned_by}
use pipa_personal_assistant.Confirmations.Owners.{cancel_for_owner_exact}
use pipa_personal_assistant.Tools.Router.{cancel_pending}
use pipa_personal_assistant.Core.State.Invariant.{Inv}
use pipa_personal_assistant.Connection.BeforeHello.{is_hello, request_session}

module _ {W : Type 0} where
  -- the session that the connection got is one of the device that the verifier named
  abbrev IsSessionOf : String → Option String → Core W → Type 0
  IsSessionOf id authorized c =
      (device : String) × (authorized ≡ some device)
      × (Option.map (λ s. s.device_id) (lookup id c.sessions) ≡ some device)

  created_session :
      (t : Tick) (device id : String) (firmware : Option String) (capabilities : List String)
      (c : Core W) (k : Connection)
      → k.session_id ≡ none
      → let (r, c') = open_session t (some device) firmware capabilities c in
        (authenticated r k).1.session_id ≡ some id
        → Option.map (λ s. s.device_id) (lookup id c'.sessions) ≡ some device
  unfolding open_session opened create new_session authenticated
  created_session t device id firmware capabilities c k u h =
      let d' = (prune t.created c.sessions).1 in
      let n : NewSession = record {
        device_id = device;
        firmware_version = firmware;
        capabilities = capabilities;
        capabilities_initialized = true;
      } in
      elim (Result-cases (check_limits device d')) [
        | inl (_, e) ↦ ground (
          arith,
          lookup-insert id t.fresh (new_session t.created t.fresh n) d',
          eq_iff t.fresh id,
        )
        | inr (_, e) ↦ ground arith
      ]

  opened_session :
      (t : Tick) (o : Option String) (id : String) (firmware : Option String)
      (capabilities : List String) (c : Core W) (k : Connection)
      → k.session_id ≡ none
      → let (r, c') = open_session t o firmware capabilities c in
        (authenticated r k).1.session_id ≡ some id → IsSessionOf id o c'
  unfolding open_session authenticated authentication_failure
  opened_session t none id firmware capabilities c k u h = absurd (cc)
  opened_session t (some device) id firmware capabilities c k u h =
      (device, refl, created_session t device id firmware capabilities c k u h)

  module _ (cfg : Config W) where
    -- the device that the verifier of the Core names for the answer in a `hello`
    unfoldable pub named_device : Tick → ClientMessage → Core W → Option String
    named_device t (hello device challenge_id signature firmware capabilities) c =
        authorized
          (verify_response cfg.verifies t.verified
            (record { challenge_id = challenge_id; device_id = device; signature = signature })
            c.verifier).0
    named_device t m c = none

    known_opens :
        (t : Tick) (o : Option String) (m : ClientMessage) (k : Connection) (c : Core W)
        (id : String)
        → o ≡ none
        → k.session_id ≡ none
        → let (r, k', c') = process_known cfg t o m k c in
          k'.session_id ≡ some id → (is_hello m ≡ true) × IsSessionOf id (named_device t m c) c'
    unfolding process_known authenticate_connection is_hello authenticate verify prune_stale
        named_device
    known_opens t (some other) m k c id o u h = absurd (cc)
    known_opens t none (hello device challenge_id signature firmware capabilities) k c id o u h =
        let r : SignedChallenge = record {
          challenge_id = challenge_id;
          device_id = device;
          signature = signature;
        } in
        let (a, c') = verify cfg t r (prune_stale t.now c) in
        (refl, opened_session t (authorized a) id firmware capabilities c' k u h)
    known_opens t none m k c id o u h = absurd (cc)

    message_opens :
        (now : ℕ) (t : Tick) (d : Draw) (m : ClientMessage) (k : Connection) (c : Core W)
        (id : String)
        → k.session_id ≡ none
        → let (r, k', c') = process_message cfg now t d m k c in
          k'.session_id ≡ some id → (is_hello m ≡ true) × IsSessionOf id (named_device t m c) c'
    unfolding process_message
    message_opens now t d (challenge_request device) k c id u h =
        absurd (cc (u, h, request_session now d device k.session_id k c))
    message_opens now t d m k c id u h = known_opens t k.session_id m k c id u u h

    -- A connection gets a session only by a `hello`, and only if the Core's verifier accepts the answer
    -- that it carries and names a device; the Core then holds that session, and it is one of that
    -- device.
    pub process_opens :
        (i : Arrival) (k : Connection) (c : Core W) (id : String)
        → k.session_id ≡ none
        → (process cfg i k c).1.session_id ≡ some id
        → (is_hello i.message ≡ true)
          × IsSessionOf id (named_device i.tick i.message c) (process cfg i k c).2
    unfolding process
    process_opens i k c id u h =
        message_opens i.clock i.tick i.draw i.message (record k { last_activity_at = i.clock }) c id
          u h

  -- When a connection with a session is closed, the Core does not hold the session any more and no
  -- confirmation of it is pending. The Core is valid and the identifier not empty.
  pub close_leaves_nothing :
      (k : Connection) (c : Core W) (id : String)
      → Inv c
      → k.session_id ≡ some id
      → is_empty id ≡ false
      → let (k', c') = close_connection k c in
        (k'.session_id ≡ none)
        × (lookup id c'.sessions ≡ none)
        × (count_where (is_owned_by (some id)) c'.router.confirmations.pending ≡ 0)
  unfolding close_connection close_session close cancel_pending
  close_leaves_nothing k c id v e n =
      let x = cancel_for_owner_exact id c.router.confirmations v.confirmations n in
      rw (close_connection, e, close_session)
        (refl, rw (lookup-erase id id c.sessions, eq_refl id) refl, x.0)
