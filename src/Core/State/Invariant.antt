-- ===== src/Core/State/Invariant.antt =====
-- The invariant of the whole Core, through every call of `PipaCore` in backend/pipa_core/core.py.
use pipa_personal_assistant.Prelude.{
  ℕ, ◌≡◌, refl, String, Option, none, some, List, [], ◌∷◌, Option-cases, inl, inr, sym, ◌∙◌, ap,
  arith, eq_iff,
}
use pipa_personal_assistant.Prelude.Dict.{lookup, update}
use pipa_personal_assistant.Prelude.Dict.Laws.{lookup-Each, update_cong, lookup-update}
use pipa_personal_assistant.Protocol.{ClientMessage}
use pipa_personal_assistant.Confirmations.{ConfirmationManager, Request, create, consume}
use pipa_personal_assistant.Confirmations
use pipa_personal_assistant.Confirmations.Invariant.{create-Inv, consume-Inv, cancel_for_owner-Inv}
use pipa_personal_assistant.Memory.{remember}
use pipa_personal_assistant.Memory
use pipa_personal_assistant.Memory.Bounds.{remember-Inv}
use pipa_personal_assistant.Sessions.{DeviceSession, Registry, NewSession, touch, prune}
use pipa_personal_assistant.Sessions
use pipa_personal_assistant.Sessions.Invariant.{prune-Inv, erase-Inv, update-Inv, IsFiled}
use pipa_personal_assistant.Prelude.Bytes.{Bytes}
use pipa_personal_assistant.TrustedUnlock.{AuthorizationVerifier}
use pipa_personal_assistant.TrustedUnlock.Data.{SignedChallenge}
use pipa_personal_assistant.Tools.Router.{ToolRouter, cancel_pending}
use pipa_personal_assistant.Tools.Keeps.{invoke-Keeps, resolve_confirmation-Keeps}
use pipa_personal_assistant.Core.State.{
  Core, Config, Tick, Draw, save, cancel_each, prune_stale, close, open_session, authorized,
  create_challenge, verify, authenticate,
}
use pipa_personal_assistant.Core.State.Handle.{
  handle_known, handle, listen_known, handle_transcript,
}
use pipa_personal_assistant.Core.State.Keeps.{IsKept}
use pipa_personal_assistant.Core.State.HandleKeeps.{receive-kept, listen-kept}

-- A call of the Core by a transport. `opens` is the call of `sessions.create` that the encrypted
-- connection of windows-agent/secure_core_connection.py makes itself.
pub data Event : Type 0 where
  message : Tick → String → ClientMessage → Event
  transcript : Tick → String → String → Event
  authenticates : Tick → SignedChallenge → Option String → List String → Event
  opens : Tick → NewSession → Event
  challenges : Draw → String → Event
  closes : String → Event

abbrev IsOwn : String → String → DeviceSession → Type 0
IsOwn id device s = (s.session_id ≡ id) × (s.device_id ≡ device)

retouched :
    (s s0 : DeviceSession)
    → s.session_id ≡ s0.session_id
    → s.device_id ≡ s0.device_id
    → s ≡ record s { session_id = s0.session_id; device_id = s0.device_id }
retouched s s0 f g = cc

module _ {W : Type 0} where
  pub record Inv (c : Core W) : Type 0 where
    pub confirmations : Confirmations.Invariant.Inv c.router.confirmations
    pub sessions : Sessions.Invariant.Inv c.sessions
    pub memory : Memory.Bounds.Inv c.memory

  -- `self.core.sessions.create(…)`
  unfoldable pub opened_directly : Tick → NewSession → Core W → Core W
  opened_directly t n c = record c { sessions = (Sessions.create t.created t.fresh n c.sessions).1 }

  module _ (cfg : Config W) where
    unfoldable pub step : Core W → Event → Core W
    unfolding handle handle_transcript authenticate close
    step c (message t id m) = (handle cfg t id m c).1
    step c (transcript t id text) = (handle_transcript cfg t id text c).1
    step c (authenticates t r firmware capabilities) =
        (authenticate cfg t r firmware capabilities c).1
    step c (opens t n) = opened_directly t n c
    step c (challenges d device) = (create_challenge d device c).1
    step c (closes id) = close id c

    unfoldable pub run : Core W → List Event → Core W
    run c [] = c
    run c (e ∷ es) = run (step c e) es

  -- The session that stands under `id` is one of `device`.
  abbrev IsDevice : String → String → Core W → Type 0
  IsDevice id device c = (s : DeviceSession) → lookup id c.sessions ≡ some s → s.device_id ≡ device

  save-Inv :
      (id device : String) (s : DeviceSession) (c : Core W)
      → IsOwn id device s
      → IsDevice id device c
      → Sessions.Invariant.Inv c.sessions
      → Sessions.Invariant.Inv (save s c).sessions
  unfolding save
  save-Inv id device s c (f, g) h v =
      let keep : DeviceSession → DeviceSession =
        λ s0. record s { session_id = s0.session_id; device_id = s0.device_id } in
      let u : update s.session_id (λ _. s) c.sessions ≡ update s.session_id keep c.sessions =
        update_cong s.session_id (λ _. s) keep c.sessions
          λ s0 e.
            retouched s s0 (sym (lookup-Each IsFiled s.session_id s0 c.sessions v.filed e))
              (g ∙ sym (h s0 (sym (ap (λ k. lookup k c.sessions) f) ∙ e))) in
      rw u (update-Inv s.session_id keep c.sessions (λ s0. (refl, refl)) v)

  save-IsDevice :
      (id device : String) (s : DeviceSession) (c : Core W)
      → IsOwn id device s
      → IsDevice id device c
      → IsDevice id device (save s c)
  unfolding save
  save-IsDevice id device s c (f, g) h s' e =
      ground (arith, lookup-update id s.session_id (λ _. s) c.sessions, eq_iff s.session_id id)

  -- every step of a handler, for the session under `id`
  Inv-IsKept : (id device : String) → IsKept (λ c. Inv c × IsDevice id device c) (IsOwn id device)
  unfolding cancel_pending save
  Inv-IsKept id device = record {
    saved = λ s c o (v, h). (
      record {
        confirmations = v.confirmations;
        sessions = save-Inv id device s c o h v.sessions;
        memory = v.memory;
      },
      save-IsDevice id device s c o h,
    );
    moved = λ s s' (f, g) (f', g'). (f ∙ f', g ∙ g');
    called = λ name arguments info c (v, h). (
      record {
        confirmations =
            (invoke-Keeps {P = Confirmations.Invariant.Inv} create-Inv consume-Inv name arguments
                none info).at
              c.router v.confirmations;
        sessions = v.sessions;
        memory = v.memory;
      },
      h,
    );
    answered = λ now k accepted owner c (v, h). (
      record {
        confirmations =
            (resolve_confirmation-Keeps {P = Confirmations.Invariant.Inv} create-Inv consume-Inv now
                k accepted owner).at
              c.router v.confirmations;
        sessions = v.sessions;
        memory = v.memory;
      },
      h,
    );
    cancelled = λ owner c (v, h). (
      record {
        confirmations = cancel_for_owner-Inv owner c.router.confirmations v.confirmations;
        sessions = v.sessions;
        memory = v.memory;
      },
      h,
    );
    learnt = λ d fact c (v, h). (
      record {
        confirmations = v.confirmations;
        sessions = v.sessions;
        memory = remember-Inv d fact c.memory v.memory;
      },
      h,
    );
  }

  cancel_each-Inv :
      (ids : List String) (r : ToolRouter W)
      → Confirmations.Invariant.Inv r.confirmations
      → Confirmations.Invariant.Inv (cancel_each ids r).confirmations
  unfolding cancel_each cancel_pending
  cancel_each-Inv [] r v = v
  cancel_each-Inv (id ∷ ids) r v =
      cancel_each-Inv ids (cancel_pending id r).1 (cancel_for_owner-Inv id r.confirmations v)

  prune_stale-Inv : (now : ℕ) (c : Core W) → Inv c → Inv (prune_stale now c)
  unfolding prune_stale
  prune_stale-Inv now c v = record {
    confirmations = cancel_each-Inv (prune now c.sessions).0 c.router v.confirmations;
    sessions = prune-Inv now c.sessions v.sessions;
    memory = v.memory;
  }

  -- the verifier is no part of the invariant
  verifier-Inv :
      (v : AuthorizationVerifier Bytes) (c : Core W) → Inv c → Inv (record c { verifier = v })
  verifier-Inv v c i = record {
    confirmations = i.confirmations;
    sessions = i.sessions;
    memory = i.memory;
  }

  same-IsDevice :
      (id : String) (c : Core W) (s : DeviceSession)
      → lookup id c.sessions ≡ some s
      → IsDevice id s.device_id c
  same-IsDevice id c s e s' e' = cc

  module _ (cfg : Config W) where
    handle_known-Inv :
        (t : Tick) (id : String) (m : ClientMessage) (c : Core W)
        → Inv c
        → Inv (handle_known cfg t m (lookup id c.sessions) c).1
    unfolding handle_known touch
    handle_known-Inv t id m c v = elim (Option-cases (lookup id c.sessions)) [
      | inl e ↦ rw (e, handle_known) v
      | inr (s, e) ↦
          let s' = touch t.now s in
          let k = Inv-IsKept id s.device_id in
          let o : IsOwn id s.device_id s' =
            (lookup-Each IsFiled id s c.sessions v.sessions.filed e, refl) in
          rw (e, handle_known)
            (receive-kept k cfg t m s' (save s' c) o (k.saved s' c o (v, same-IsDevice id c s e))).0
    ]

    listen-Inv :
        (t : Tick) (id text : String) (c : Core W)
        → Inv c
        → Inv (listen_known cfg t text (lookup id c.sessions) c).1
    unfolding listen_known touch
    listen-Inv t id text c v = elim (Option-cases (lookup id c.sessions)) [
      | inl e ↦ rw (e, listen_known) v
      | inr (s, e) ↦
          let s' = touch t.now s in
          let k = Inv-IsKept id s.device_id in
          let o : IsOwn id s.device_id s' =
            (lookup-Each IsFiled id s c.sessions v.sessions.filed e, refl) in
          rw (e, listen_known)
            (listen-kept k cfg t text s' (save s' c) o
              (k.saved s' c o (v, same-IsDevice id c s e))).0
    ]

    open_session-Inv :
        (t : Tick) (device firmware : Option String) (capabilities : List String) (c : Core W)
        → Inv c
        → Inv (open_session t device firmware capabilities c).1
    unfolding open_session
    open_session-Inv t none firmware capabilities c v = v
    open_session-Inv t (some device) firmware capabilities c v = record {
      confirmations = v.confirmations;
      sessions = Sessions.Invariant.create-Inv t.created t.fresh _ c.sessions v.sessions;
      memory = v.memory;
    }

    pub step-Inv : (c : Core W) (e : Event) → Inv c → Inv (step cfg c e)
    unfolding step handle handle_transcript authenticate verify create_challenge close
        opened_directly cancel_pending
    step-Inv c (message t id m) v =
        handle_known-Inv t id m (prune_stale t.now c) (prune_stale-Inv t.now c v)
    step-Inv c (transcript t id text) v = listen-Inv t id text c v
    step-Inv c (authenticates t r firmware capabilities) v =
        let (a, c') = verify cfg t r (prune_stale t.now c) in
        open_session-Inv t (authorized a) firmware capabilities c'
          (verifier-Inv c'.verifier (prune_stale t.now c) (prune_stale-Inv t.now c v))
    step-Inv c (opens t n) v = record {
      confirmations = v.confirmations;
      sessions = Sessions.Invariant.create-Inv t.created t.fresh n c.sessions v.sessions;
      memory = v.memory;
    }
    step-Inv c (challenges d device) v = verifier-Inv (create_challenge d device c).1.verifier c v
    step-Inv c (closes id) v = record {
      confirmations = cancel_for_owner-Inv id c.router.confirmations v.confirmations;
      sessions = erase-Inv id c.sessions v.sessions;
      memory = v.memory;
    }

    -- After any messages, transcripts, authentications, challenges, closings and direct calls of
    -- `sessions.create`, in any order and at any times, with any handlers and parsers, the Core is valid if it was at the start: the confirmations are
    -- bounded in all and for each owner and filed under their identifiers, there are at most 32
    -- sessions and at most 2 of each device, and the memory holds at most 100 distinct facts of each
    -- of at most 256 devices.
    pub run-IsValid : (c : Core W) (es : List Event) → Inv c → Inv (run cfg c es)
    unfolding run
    run-IsValid c [] v = v
    run-IsValid c (e ∷ es) v = run-IsValid (step cfg c e) es (step-Inv c e v)
