-- ===== src/Core/State/Greeting.antt =====
-- Lookups of sessions after the steps of the Core, and that a device says hello once.
use pipa_personal_assistant.Prelude.{
  ℕ, ◌+◌, ◌<◌, ◌≡◌, refl, String, true, false, Option, some, List, [], ◌∷◌, arith, eq_refl, ◌∙◌, ap,
}
use mathlib.Core.Option
use pipa_personal_assistant.Prelude.Dict.{lookup, Unique}
use pipa_personal_assistant.Prelude.Dict.Laws.{
  lookup-Each, lookup-update, lookup-drop_where, update-Unique,
}
use pipa_personal_assistant.Protocol.{device_hello}
use pipa_personal_assistant.Protocol.Server.{error}
use pipa_personal_assistant.Sessions.{
  DeviceSession, touch, prune, is_stale, max_session_idle_seconds,
}
use pipa_personal_assistant.Sessions.Invariant.{Inv, IsFiled, prune-Inv}
use pipa_personal_assistant.Core.State.{Core, Config, Tick, save, prune_stale}
use pipa_personal_assistant.Core.State.Handle.{greet, receive, handle_known, handle}

fresh_enough :
    (now later : ℕ) (s : DeviceSession)
    → s.last_seen_at ≡ some now
    → later < now + max_session_idle_seconds
    → is_stale later s ≡ false
unfolding is_stale
fresh_enough now later s e l = ground arith

module _ {W : Type 0} where
  pub lookup-save :
      (id : String) (s : DeviceSession) (c : Core W) {s0 : DeviceSession}
      → s.session_id ≡ id
      → lookup id c.sessions ≡ some s0
      → lookup id (save s c).sessions ≡ some s
  unfolding save
  lookup-save id s c f e =
      rw (lookup-update id s.session_id (λ _. s) c.sessions, e, f, eq_refl id) refl

  pub save-Unique :
      (s : DeviceSession) (c : Core W) → Unique c.sessions → Unique (save s c).sessions
  unfolding save
  save-Unique s c u = update-Unique s.session_id (λ _. s) c.sessions u

  pub lookup-prune_stale :
      (now : ℕ) (id : String) (c : Core W) {s : DeviceSession}
      → Unique c.sessions
      → lookup id c.sessions ≡ some s
      → is_stale now s ≡ false
      → lookup id (prune_stale now c).sessions ≡ some s
  unfolding prune_stale prune
  lookup-prune_stale now id c u e f =
      rw (lookup-drop_where id (is_stale now) c.sessions u, e) (simp f)

  -- what the second hello meets
  greeted :
      (cfg : Config W) (t : Tick) (id : String) (c : Core W) (firmware : Option String)
      (capabilities : List String) {s : DeviceSession}
      → Inv c.sessions
      → lookup id (prune_stale t.now c).sessions ≡ some s
      → s.capabilities_initialized ≡ false
      → let c1 = (handle cfg t id (device_hello firmware capabilities) c).1 in
        (s1 : DeviceSession) × (lookup id c1.sessions ≡ some s1)
        × Unique c1.sessions
        × (s1.capabilities_initialized ≡ true)
        × (s1.capabilities ≡ capabilities)
        × (s1.last_seen_at ≡ some t.now)
        × (s1.session_id ≡ id)
  unfolding prune_stale handle handle_known receive greet touch
  greeted cfg t id c firmware capabilities {s} v e u =
      let c' = prune_stale t.now c in
      let s' = touch t.now s in
      let s1 : DeviceSession = record s' {
        firmware_version = firmware;
        capabilities = capabilities;
        capabilities_initialized = true;
      } in
      let p : Inv c'.sessions = prune-Inv t.now c.sessions v in
      let f : s.session_id ≡ id = lookup-Each IsFiled id s c'.sessions p.filed e in
      let h : (handle cfg t id (device_hello firmware capabilities) c).1 ≡ save s1 (save s' c') =
        simp (handle, e, handle_known, receive, greet, u) in
      let e' : lookup id (save s' c').sessions ≡ some s' = lookup-save id s' c' f e in
      (
        s1,
        rw h (lookup-save id s1 (save s' c') f e'),
        rw h (save-Unique s1 (save s' c') (save-Unique s' c' p.unique)),
        refl,
        refl,
        refl,
        f,
      )

  handled :
      (cfg : Config W) (t : Tick) (id : String) (c : Core W) (firmware : Option String)
      (capabilities : List String) {s : DeviceSession}
      → lookup id (prune_stale t.now c).sessions ≡ some s
      → s.session_id ≡ id
      → s.capabilities_initialized ≡ true
      → let (out, c') = handle cfg t id (device_hello firmware capabilities) c in
        (out ≡ error "device_hello_not_expected" ∷ [])
        × (Option.map (λ s'. s'.capabilities) (lookup id c'.sessions) ≡ some s.capabilities)
  unfolding handle handle_known receive greet touch
  handled cfg t id c firmware capabilities {s} e f u =
      let c' = prune_stale t.now c in
      let s' = touch t.now s in
      let h : handle cfg t id (device_hello firmware capabilities) c
          ≡ (error "device_hello_not_expected" ∷ [], save s' c') =
        simp (handle, e, handle_known, receive, greet, u) in
      rw (h, lookup-save id s' c' f e) (refl, refl)

  -- A session says hello once: after a first `device_hello`, a second one that comes before the
  -- session is stale is refused, and the capabilities stay those of the first. The registry is
  -- valid.
  pub hello_once :
      (cfg : Config W) (t later : Tick) (id : String) (c : Core W) (firmware : Option String)
      (capabilities : List String) (firmware' : Option String) (capabilities' : List String)
      {s : DeviceSession}
      → Inv c.sessions
      → lookup id (prune_stale t.now c).sessions ≡ some s
      → s.capabilities_initialized ≡ false
      → later.now < t.now + max_session_idle_seconds
      → let c1 = (handle cfg t id (device_hello firmware capabilities) c).1 in
        let (out, c2) = handle cfg later id (device_hello firmware' capabilities') c1 in
        (out ≡ error "device_hello_not_expected" ∷ [])
        × (Option.map (λ s'. s'.capabilities) (lookup id c2.sessions) ≡ some capabilities)
  hello_once cfg t later id c firmware capabilities firmware' capabilities' v e u l =
      let c1 = (handle cfg t id (device_hello firmware capabilities) c).1 in
      let (s1, e1, u1, i1, k1, l1, f1) = greeted cfg t id c firmware capabilities v e u in
      let h =
        handled cfg later id c1 firmware' capabilities'
          (lookup-prune_stale later.now id c1 u1 e1 (fresh_enough t.now later.now s1 l1 l)) f1 i1 in
      (h.0, h.1 ∙ ap some k1)
