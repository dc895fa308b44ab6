-- ===== src/Connection/Challenges.antt =====
-- The rate limit on the challenges of a connection of backend/pipa_core/connection.py.
use pipa_personal_assistant.Prelude.{
  ℕ, ◌+◌, ◌≤◌, ◌≡◌, refl, ◌⊎◌, inl, inr, String, Bool, true, false, Option, none, some, List, [],
  ◌∷◌, ◌&&◌, if◌then◌else◌, Result, ok, err, arith, Bool-cases, subst,
}
use pipa_personal_assistant.Protocol.{ClientMessage, challenge_request, hello}
use pipa_personal_assistant.Protocol.Server.{challenge}
use pipa_personal_assistant.Sessions.{DeviceSession}
use pipa_personal_assistant.Core.State.{
  Core, Config, Tick, Draw, AuthenticationError, session_limit, not_authorized, authenticate,
  create_challenge,
}
use pipa_personal_assistant.TrustedUnlock.Data.{TrustedUnlockError, Challenge}
use pipa_personal_assistant.Connection.{
  Connection, ConnectionResult, Arrival, min_challenge_interval, authentication_failure,
  is_too_soon, made_challenge, request_challenge, authenticated, authenticate_connection,
  process_authenticated, process_known, process_message, process,
}

-- Each time is at least the interval after the one before it.
unfoldable pub IsSpaced : Option ℕ → List ℕ → Type 0
IsSpaced last [] = Unit
IsSpaced none (t ∷ ts) = IsSpaced (some t) ts
IsSpaced (some last) (t ∷ ts) = (last + min_challenge_interval ≤ t) × IsSpaced (some t) ts

IsSpaced-earlier :
    (last later : ℕ) (ts : List ℕ)
    → last ≤ later
    → IsSpaced (some later) ts
    → IsSpaced (some last) ts
unfolding IsSpaced
IsSpaced-earlier last later [] h s = tt
IsSpaced-earlier last later (t ∷ ts) h s = (omega (arith, s.0), s.1)

IsSpaced-any : (last : ℕ) (ts : List ℕ) → IsSpaced (some last) ts → IsSpaced none ts
unfolding IsSpaced
IsSpaced-any last [] s = tt
IsSpaced-any last (t ∷ ts) s = s.1

nothing-IsSpaced : (last : Option ℕ) → IsSpaced last []
unfolding IsSpaced
nothing-IsSpaced none = tt
nothing-IsSpaced (some last) = tt

IsSpaced-after :
    (now : ℕ) (issued : Bool) (last : Option ℕ) (ts : List ℕ)
    → is_too_soon now last ≡ false
    → IsSpaced (some now) ts
    → IsSpaced last (if issued then now ∷ ts else ts)
unfolding IsSpaced is_too_soon
IsSpaced-after now true none ts f s = s
IsSpaced-after now false none ts f s = IsSpaced-any now ts s
IsSpaced-after now true (some last) ts f s = (ground arith, s)
IsSpaced-after now false (some last) ts f s = IsSpaced-earlier last now ts (ground arith) s

-- the result hands a challenge out
unfoldable pub is_challenge : ConnectionResult → Bool
is_challenge r = elim r.responses [
  | [] ↦ false
  | m ∷ ms ↦ elim m as (λ _. Bool) [ challenge _ ↦ true | _ ↦ false ]
]

unfoldable pub is_request : ClientMessage → Bool
is_request (challenge_request _) = true
is_request _ = false

-- a challenge request that is answered with a challenge
abbrev pub is_issued : ClientMessage → ConnectionResult → Bool
is_issued m r = is_request m && is_challenge r

-- A step leaves the time of the last challenge alone and issues none, or sets it to the clock, which
-- is far enough from the old one.
abbrev IsStep : ℕ → Bool → Connection → Connection → Type 0
IsStep now issued k k' =
    ((k'.last_challenge_at ≡ k.last_challenge_at) × (issued ≡ false))
    ⊎ ((k'.last_challenge_at ≡ some now) × (is_too_soon now k.last_challenge_at ≡ false))

made-IsStep :
    (now : ℕ) (o : Result TrustedUnlockError Challenge) (k : Connection)
    → (made_challenge o k).1.last_challenge_at ≡ k.last_challenge_at
unfolding made_challenge authentication_failure
made-IsStep now (err e) k = refl
made-IsStep now (ok c) k = refl

authenticated-last :
    (r : Result AuthenticationError DeviceSession) (k : Connection)
    → (authenticated r k).1.last_challenge_at ≡ k.last_challenge_at
unfolding authenticated authentication_failure
authenticated-last (ok s) k = refl
authenticated-last (err (session_limit e)) k = refl
authenticated-last (err not_authorized) k = refl

module _ {W : Type 0} (cfg : Config W) where
  request-IsStep :
      (now : ℕ) (d : Draw) (device : String) (id : Option String) (k : Connection) (c : Core W)
      → let (r, k', c') = request_challenge now d device id k c in IsStep now (is_challenge r) k k'
  unfolding request_challenge is_challenge
  request-IsStep now d device (some id) k c = inl (refl, refl)
  request-IsStep now d device none k c = elim (Bool-cases (is_too_soon now k.last_challenge_at)) [
    | inl e ↦ rw (request_challenge, e) (inl (refl, refl))
    | inr e ↦
        let k' : Connection = record k { last_challenge_at = some now } in
        simp (request_challenge, e) (inr (made-IsStep now (create_challenge d device c).0 k', refl))
  ]

  known-last :
      (t : Tick) (id : Option String) (m : ClientMessage) (k : Connection) (c : Core W)
      → (process_known cfg t id m k c).1.last_challenge_at ≡ k.last_challenge_at
  unfolding process_known authenticate_connection process_authenticated
  known-last t none (hello device challenge_id signature firmware capabilities) k c =
      authenticated-last (authenticate cfg t _ firmware capabilities c).0 k
  known-last t none m k c = refl
  known-last t (some id) (hello _ _ _ _ _) k c = refl
  known-last t (some id) m k c = refl

  message-IsStep :
      (now : ℕ) (t : Tick) (d : Draw) (m : ClientMessage) (k : Connection) (c : Core W)
      → let (r, k', c') = process_message cfg now t d m k c in IsStep now (is_issued m r) k k'
  unfolding process_message is_request
  message-IsStep now t d (challenge_request device) k c =
      request-IsStep now d device k.session_id k c
  message-IsStep now t d m k c = inl (known-last t k.session_id m k c, refl)

  -- the times at which the connection hands challenges out
  unfoldable pub challenge_times : List Arrival → Connection → Core W → List ℕ
  challenge_times [] k c = []
  challenge_times (i ∷ is) k c =
      let (r, k', c') = process cfg i k c in
      let rest = challenge_times is k' c' in if is_issued i.message r then i.clock ∷ rest else rest

  IsSpaced-step :
      (now : ℕ) (issued : Bool) (k k' : Connection) (ts : List ℕ)
      → IsStep now issued k k'
      → IsSpaced k'.last_challenge_at ts
      → IsSpaced k.last_challenge_at (if issued then now ∷ ts else ts)
  IsSpaced-step now issued k k' ts (inl (e, f)) s = rw f (subst (λ l. IsSpaced l ts) e s)
  IsSpaced-step now issued k k' ts (inr (e, f)) s =
      IsSpaced-after now issued k.last_challenge_at ts f (subst (λ l. IsSpaced l ts) e s)

  -- Between any two challenges that a connection hands out, and between the last request that it did
  -- not turn away and the next challenge, at least a second passes, whatever else it sends.
  pub challenge_times-IsSpaced :
      (is : List Arrival) (k : Connection) (c : Core W)
      → IsSpaced k.last_challenge_at (challenge_times is k c)
  unfolding challenge_times IsSpaced process
  challenge_times-IsSpaced [] k c = nothing-IsSpaced k.last_challenge_at
  challenge_times-IsSpaced (i ∷ is) k c =
      let k0 : Connection = record k { last_activity_at = i.clock } in
      let x = process_message cfg i.clock i.tick i.draw i.message k0 c in
      IsSpaced-step i.clock (is_issued i.message x.0) k x.1 (challenge_times is x.1 x.2)
        (message-IsStep i.clock i.tick i.draw i.message k0 c) (challenge_times-IsSpaced is x.1 x.2)
