-- ===== src/Connection/BeforeHello.antt =====
-- What a connection of backend/pipa_core/connection.py may reach before a `hello` comes.
use pipa_personal_assistant.Prelude.{
  ℕ, ◌≡◌, refl, inl, inr, String, Bool, true, false, Option, none, some, List, [], ◌∷◌, All, Result,
  ok, err, Bool-cases, ◌∙◌, Result-cases,
}
use pipa_personal_assistant.Protocol.{ClientMessage, challenge_request, hello}
use pipa_personal_assistant.Core.State.{Core, Config, Tick, Draw, create_challenge}
use pipa_personal_assistant.Prelude.Bytes.{Bytes}
use pipa_personal_assistant.TrustedUnlock
use pipa_personal_assistant.TrustedUnlock.{AuthorizationVerifier}
use pipa_personal_assistant.TrustedUnlock.Data.{TrustedUnlockError, Challenge, default_ttl_seconds}
use pipa_personal_assistant.Connection.{
  Connection, Arrival, is_too_soon, authentication_failure, made_challenge, request_challenge,
  authenticate_connection, process_known, process_message, process,
}
use pipa_personal_assistant.Connection.Limits.{drive}

unfoldable pub is_hello : ClientMessage → Bool
is_hello (hello _ _ _ _ _) = true
is_hello _ = false

-- the message is no `hello`
abbrev pub IsNoHello : Arrival → Type 0
IsNoHello i = is_hello i.message ≡ false

create_challenge-devices :
    (now ttl : ℕ) (id drawn device name : String) (v : AuthorizationVerifier Bytes)
    → (TrustedUnlock.create_challenge now ttl id drawn device name v).1.trusted_devices
      ≡ v.trusted_devices
unfolding TrustedUnlock.create_challenge TrustedUnlock.prune
create_challenge-devices now ttl id drawn device name v =
    elim (Result-cases (TrustedUnlock.Data.check_arguments device name ttl)) [
      | inl (_, e) ↦
          elim (Result-cases (TrustedUnlock.check_limits device (TrustedUnlock.prune now v))) [
            | inl (_, f) ↦ rw (e, f) refl
            | inr (_, f) ↦ rw (e, f) refl
          ]
      | inr (_, e) ↦ rw (e) refl
    ]

made_session :
    (m : Result TrustedUnlockError Challenge) (k : Connection)
    → (made_challenge m k).1.session_id ≡ k.session_id
unfolding made_challenge authentication_failure
made_session (err e) k = refl
made_session (ok c) k = refl

module _ {W : Type 0} where
  pub request_session :
      (now : ℕ) (d : Draw) (device : String) (id : Option String) (k : Connection) (c : Core W)
      → (request_challenge now d device id k c).1.session_id ≡ k.session_id
  unfolding request_challenge
  request_session now d device (some id) k c = refl
  request_session now d device none k c = elim (Bool-cases (is_too_soon now k.last_challenge_at)) [
    | inl b ↦ rw (b) refl
    | inr b ↦
        rw (b)
          (made_session (create_challenge d device c).0 (record k { last_challenge_at = some now }))
  ]

module _ {W : Type 0} (cfg : Config W) where
  -- The calls of the verifier are all that may have happened to the Core, and no device was trusted
  -- or revoked by them.
  pub record IsUnreached (c c' : Core W) : Type 0 where
    pub router : c'.router ≡ c.router
    pub sessions : c'.sessions ≡ c.sessions
    pub memory : c'.memory ≡ c.memory
    pub devices : c'.verifier.trusted_devices ≡ c.verifier.trusted_devices

  unreached : (c : Core W) → IsUnreached c c
  unreached c = record { router = refl; sessions = refl; memory = refl; devices = refl }

  challenge-IsUnreached :
      (d : Draw) (device : String) (c : Core W) → IsUnreached c (create_challenge d device c).1
  unfolding create_challenge
  challenge-IsUnreached d device c = record {
    router = refl;
    sessions = refl;
    memory = refl;
    devices =
        create_challenge-devices d.drawn_at default_ttl_seconds d.challenge_id d.nonce device
          "session" c.verifier;
  }

  request-IsUnreached :
      (now : ℕ) (d : Draw) (device : String) (id : Option String) (k : Connection) (c : Core W)
      → IsUnreached c (request_challenge now d device id k c).2
  unfolding request_challenge
  request-IsUnreached now d device (some id) k c = unreached c
  request-IsUnreached now d device none k c =
      elim (Bool-cases (is_too_soon now k.last_challenge_at)) [
        | inl b ↦ rw (b) (unreached c)
        | inr b ↦ rw (b) (challenge-IsUnreached d device c)
      ]

  known_unauthenticated :
      (t : Tick) (id : Option String) (m : ClientMessage) (k : Connection) (c : Core W)
      → is_hello m ≡ false
      → id ≡ none
      → let (r, k', c') = process_known cfg t id m k c in
        IsUnreached c c' × (k'.session_id ≡ k.session_id)
  unfolding process_known authenticate_connection is_hello
  known_unauthenticated t (some id) m k c h u = absurd (cc)
  known_unauthenticated t none (hello _ _ _ _ _) k c h u = absurd (cc)
  known_unauthenticated t none m k c h u = (unreached c, refl)

  message_unauthenticated :
      (now : ℕ) (t : Tick) (d : Draw) (m : ClientMessage) (k : Connection) (c : Core W)
      → is_hello m ≡ false
      → k.session_id ≡ none
      → let (r, k', c') = process_message cfg now t d m k c in
        IsUnreached c c' × (k'.session_id ≡ none)
  unfolding process_message
  message_unauthenticated now t d (challenge_request device) k c n u = (
    request-IsUnreached now d device k.session_id k c,
    request_session now d device k.session_id k c ∙ u,
  )
  message_unauthenticated now t d m k c n u =
      let (e, f) = known_unauthenticated t k.session_id m k c n u in (e, f ∙ u)

  process_unauthenticated :
      (i : Arrival) (k : Connection) (c : Core W)
      → IsNoHello i
      → k.session_id ≡ none
      → let (r, k', c') = process cfg i k c in IsUnreached c c' × (k'.session_id ≡ none)
  unfolding process
  process_unauthenticated i k c n u =
      message_unauthenticated i.clock i.tick i.draw i.message
        (record k { last_activity_at = i.clock }) c n u

  followed : {a b c : Core W} → IsUnreached a b → IsUnreached b c → IsUnreached a c
  followed x y = record {
    router = y.router ∙ x.router;
    sessions = y.sessions ∙ x.sessions;
    memory = y.memory ∙ x.memory;
    devices = y.devices ∙ x.devices;
  }

  -- Until a `hello` comes, nothing that an unauthenticated connection sends authenticates the
  -- connection or changes the Core's tools, confirmations, sessions or memory or which devices the
  -- verifier trusts; the challenges of the verifier are all that changes.
  pub drive_before_hello :
      (is : List Arrival) (k : Connection) (c : Core W)
      → All IsNoHello is
      → k.session_id ≡ none
      → let (k', c') = drive cfg is k c in IsUnreached c c' × (k'.session_id ≡ none)
  unfolding drive
  drive_before_hello [] k c n u = (unreached c, u)
  drive_before_hello (i ∷ is) k c n u =
      let x = process cfg i k c in
      let (e, f) = process_unauthenticated i k c n.0 u in
      let (e', f') = drive_before_hello is x.1 x.2 n.1 f in
      elim (Bool-cases x.0.close) [
        | inl b ↦ rw (drive, b) (e, f)
        | inr b ↦ rw (drive, b) (followed e e', f')
      ]
