-- ===== src/Core/State/ShownRuns.antt =====
-- At most one confirmation of each session is pending, and only while its screen asks for it, after any
-- calls of `PipaCore` in backend/pipa_core/core.py.
use pipa_personal_assistant.Prelude.{
  ℕ, ◌≤◌, ◌≡◌, refl, inl, inr, String, false, Option, none, some, List, [], ◌∷◌, arith,
  Result-cases, Option-cases, Bool-cases, ◌==◌, eq_iff, subst, sym, ap, ◌∙◌,
}
use pipa_personal_assistant.Prelude.Text.{is_empty}
use pipa_personal_assistant.Prelude.Dict.{lookup, insert, erase, Each}
use pipa_personal_assistant.Prelude.Dict.Laws.{
  lookup-drop_where, lookup-erase, lookup-insert, lookup-Each, update-Each, drop_where-Each,
  erase-Each, insert-Each,
}
use pipa_personal_assistant.Protocol.{ClientMessage}
use pipa_personal_assistant.Sessions.{
  DeviceSession, touch, prune, is_stale, create, new_session, NewSession, check_limits,
}
use pipa_personal_assistant.Sessions.Invariant.{IsFiled}
use pipa_personal_assistant.Confirmations.Counts.{owned}
use pipa_personal_assistant.Prelude.Bytes.{Bytes}
use pipa_personal_assistant.TrustedUnlock.{AuthorizationVerifier}
use pipa_personal_assistant.Tools.Router.{cancel_pending}
use pipa_personal_assistant.Core.State.{
  Core, Config, Tick, save, prune_stale, close, open_session, authorized, create_challenge, verify,
  authenticate,
}
use pipa_personal_assistant.Core.State.Handle.{
  handle_known, handle, listen_known, handle_transcript,
}
use pipa_personal_assistant.Core.State.Greeting.{lookup-save}
use pipa_personal_assistant.Core.State.Keeps.{IsKept}
use pipa_personal_assistant.Core.State.HandleKeeps.{receive-kept, listen-kept}
use pipa_personal_assistant.Core.State.Invariant.{
  Event, message, transcript, authenticates, challenges, opens, closes, opened_directly, Inv, step,
  run, step-Inv,
}
use pipa_personal_assistant.Core.State.Shown.{
  screen_allowance, allowance, Shown, Others-of_Shown, save-Shown,
}
use pipa_personal_assistant.Core.State.ShownHandle.{receive-Shown, listen-Shown}
use pipa_personal_assistant.Core.State.ShownPruning.{
  IsNamed, cancel-owned, cancel-own, prune_stale-Shown,
}

module _ {W : Type 0} where
  abbrev pub AreNamed : Core W → Type 0
  AreNamed c = Each IsNamed c.sessions

  AreNamed-IsKept : IsKept AreNamed (λ _. Unit {0})
  unfolding save
  AreNamed-IsKept = record {
    saved = λ s c _ n. update-Each IsNamed s.session_id (λ _. s) c.sessions (λ j v h. h) n;
    moved = λ s s' _ _. tt;
    called = λ name arguments info c n. n;
    answered = λ now k accepted owner c n. n;
    cancelled = λ owner c n. n;
    learnt = λ device fact c n. n;
  }

  -- A drawn identifier is new and not empty, no session is stale that `sessions.create` drops (it was
  -- not stale at the first reading of the clock, or the encrypted connection calls it by itself), and
  -- what is closed has a name.
  abbrev pub IsFresh : Core W → Event → Type 0
  IsFresh c (authenticates t r firmware capabilities) =
      let d = (prune_stale t.now c).sessions in
      (lookup t.fresh c.sessions ≡ none) × (is_empty t.fresh ≡ false) × ((prune t.created d).1 ≡ d)
  IsFresh c (opens t n) =
      (lookup t.fresh c.sessions ≡ none)
      × (is_empty t.fresh ≡ false)
      × ((prune t.created c.sessions).1 ≡ c.sessions)
  IsFresh c (closes id) = is_empty id ≡ false
  IsFresh c _ = Unit

  touched :
      (now : ℕ) (id : String) (c : Core W) {s : DeviceSession}
      → Shown c
      → s.session_id ≡ id
      → lookup id c.sessions ≡ some s
      → Shown (save (touch now s) c)
  unfolding touch
  touched now id c {s} w f e =
      save-Shown id (screen_allowance s.state) (touch now s) c (Others-of_Shown id c w e) f
        (omega arith)

  module _ (cfg : Config W) where
    known-Shown :
        (t : Tick) (id : String) (m : ClientMessage) (c : Core W)
        → Each IsFiled c.sessions
        → AreNamed c
        → Shown c
        → Shown (handle_known cfg t m (lookup id c.sessions) c).1
    unfolding handle_known touch
    known-Shown t id m c p n w = elim (Option-cases (lookup id c.sessions)) [
      | inl e ↦ rw (e, handle_known) w
      | inr (s, e) ↦
          let s' = touch t.now s in
          let f : s.session_id ≡ id = lookup-Each IsFiled id s c.sessions p e in
          rw (e, handle_known)
            (receive-Shown id cfg t (lookup-Each IsNamed id s c.sessions n e) s' (save s' c)
              (touched t.now id c w f e) f (lookup-save id s' c f e) m)
    ]

    heard-Shown :
        (t : Tick) (id text : String) (c : Core W)
        → Each IsFiled c.sessions
        → AreNamed c
        → Shown c
        → Shown (listen_known cfg t text (lookup id c.sessions) c).1
    unfolding listen_known touch
    heard-Shown t id text c p n w = elim (Option-cases (lookup id c.sessions)) [
      | inl e ↦ rw (e, listen_known) w
      | inr (s, e) ↦
          let s' = touch t.now s in
          let f : s.session_id ≡ id = lookup-Each IsFiled id s c.sessions p e in
          rw (e, listen_known)
            (listen-Shown id cfg t (lookup-Each IsNamed id s c.sessions n e) s' (save s' c)
              (touched t.now id c w f e) f (lookup-save id s' c f e) text)
    ]

  close-Shown : (id : String) (c : Core W) → is_empty id ≡ false → Shown c → Shown (close id c)
  unfolding close cancel_pending allowance
  close-Shown id c u w =
      let m = c.router.confirmations in
      record {
        ownerless = omega (arith, w.ownerless, cancel-owned none id m);
        shown = λ o. elim (Bool-cases (id == o)) [
          | inl b ↦
              subst
                (λ x.
                  owned (some x) (close id c).router.confirmations
                  ≤ allowance (lookup x (erase id c.sessions)))
                ((eq_iff id o).0 b) (omega (arith, cancel-own id m u))
          | inr b ↦
              rw (lookup-erase o id c.sessions, b)
                (omega (arith, w.shown o, cancel-owned (some o) id m))
        ];
      }

  inserted-Shown :
      (s : DeviceSession) (c : Core W)
      → lookup s.session_id c.sessions ≡ none
      → Shown c
      → Shown (record c { sessions = insert s.session_id s c.sessions })
  unfolding allowance
  inserted-Shown s c e w = record {
    ownerless = w.ownerless;
    shown = λ o. elim (Bool-cases (s.session_id == o)) [
      | inl b ↦
          let f : s.session_id ≡ o = (eq_iff s.session_id o).0 b in
          let z : owned (some o) c.router.confirmations ≤ 0 =
            subst (λ l. owned (some o) c.router.confirmations ≤ allowance l)
              (ap (λ k. lookup k c.sessions) (sym f) ∙ e) (w.shown o) in
          omega (arith, z)
      | inr b ↦ rw (lookup-insert o s.session_id s c.sessions, b) (w.shown o)
    ];
  }

  created-Shown :
      (t : Tick) (n : NewSession) (c : Core W)
      → (prune t.created c.sessions).1 ≡ c.sessions
      → lookup t.fresh c.sessions ≡ none
      → is_empty t.fresh ≡ false
      → AreNamed c
      → Shown c
      → Shown (opened_directly t n c) × AreNamed (opened_directly t n c)
  unfolding opened_directly create new_session
  created-Shown t n c kept e u named w =
      let s : DeviceSession = new_session t.created t.fresh n in
      elim (Result-cases (check_limits n.device_id c.sessions)) [
        | inl (x, l) ↦
            rw (opened_directly, create, kept, l)
              (inserted-Shown s c e w, insert-Each IsNamed t.fresh s c.sessions u named)
        | inr (x, l) ↦ rw (opened_directly, create, kept, l) (w, named)
      ]

  open_session-Shown :
      (t : Tick) (o firmware : Option String) (capabilities : List String) (c : Core W)
      → (prune t.created c.sessions).1 ≡ c.sessions
      → lookup t.fresh c.sessions ≡ none
      → is_empty t.fresh ≡ false
      → AreNamed c
      → Shown c
      → Shown (open_session t o firmware capabilities c).1
        × AreNamed (open_session t o firmware capabilities c).1
  unfolding open_session opened_directly
  open_session-Shown t none firmware capabilities c kept e u n w = (w, n)
  open_session-Shown t (some device) firmware capabilities c kept e u n w =
      created-Shown t _ c kept e u n w

  -- the verifier has no part in it
  verifier-Shown :
      (v : AuthorizationVerifier Bytes) (c : Core W) → Shown c → Shown (record c { verifier = v })
  verifier-Shown v c w = record { ownerless = w.ownerless; shown = w.shown }

  pruned-AreNamed : (now : ℕ) (c : Core W) → AreNamed c → AreNamed (prune_stale now c)
  unfolding prune_stale prune
  pruned-AreNamed now c n = drop_where-Each IsNamed (is_stale now) c.sessions n

  drop_where-IsFiled : (now : ℕ) (c : Core W) → Inv c → Each IsFiled (prune_stale now c).sessions
  unfolding prune_stale prune
  drop_where-IsFiled now c v = drop_where-Each IsFiled (is_stale now) c.sessions v.sessions.filed

  close-AreNamed : (id : String) (c : Core W) → AreNamed c → AreNamed (close id c)
  unfolding close
  close-AreNamed id c n = erase-Each IsNamed id c.sessions n

  pruned-none :
      (now : ℕ) (id : String) (c : Core W)
      → Inv c
      → lookup id c.sessions ≡ none
      → lookup id (prune_stale now c).sessions ≡ none
  unfolding prune_stale prune
  pruned-none now id c v e =
      rw (lookup-drop_where id (is_stale now) c.sessions v.sessions.unique, e) refl

  module _ (cfg : Config W) where
    known-AreNamed :
        (t : Tick) (m : ClientMessage) (o : Option DeviceSession) (c : Core W)
        → AreNamed c
        → AreNamed (handle_known cfg t m o c).1
    unfolding handle_known
    known-AreNamed t m none c n = n
    known-AreNamed t m (some s) c n =
        receive-kept AreNamed-IsKept cfg t m (touch t.now s) _ tt
          (AreNamed-IsKept.saved (touch t.now s) c tt n)

    heard-AreNamed :
        (t : Tick) (text : String) (o : Option DeviceSession) (c : Core W)
        → AreNamed c
        → AreNamed (listen_known cfg t text o c).1
    unfolding listen_known
    heard-AreNamed t text none c n = n
    heard-AreNamed t text (some s) c n =
        listen-kept AreNamed-IsKept cfg t text (touch t.now s) _ tt
          (AreNamed-IsKept.saved (touch t.now s) c tt n)

    step-Shown :
        (c : Core W) (e : Event)
        → Inv c
        → IsFresh c e
        → AreNamed c
        → Shown c
        → Shown (step cfg c e) × AreNamed (step cfg c e)
    unfolding step handle handle_transcript authenticate verify create_challenge opened_directly
    step-Shown c (message t id m) v f n w =
        let c' = prune_stale t.now c in
        let n' = pruned-AreNamed t.now c n in
        let p = drop_where-IsFiled t.now c v in
        (
          known-Shown cfg t id m c' p n' (prune_stale-Shown t.now c v.sessions.unique n w),
          known-AreNamed t m (lookup id c'.sessions) c' n',
        )
    step-Shown c (transcript t id text) v f n w = (
      heard-Shown cfg t id text c v.sessions.filed n w,
      heard-AreNamed t text (lookup id c.sessions) c n,
    )
    step-Shown c (authenticates t r firmware capabilities) v (f, u, k) n w =
        let (a, c') = verify cfg t r (prune_stale t.now c) in
        open_session-Shown t (authorized a) firmware capabilities c' k
          (pruned-none t.now t.fresh c v f) u (pruned-AreNamed t.now c n)
          (verifier-Shown c'.verifier (prune_stale t.now c)
            (prune_stale-Shown t.now c v.sessions.unique n w))
    step-Shown c (opens t s) v (f, u, k) n w = created-Shown t s c k f u n w
    step-Shown c (challenges d device) v f n w =
        (verifier-Shown (create_challenge d device c).1.verifier c w, n)
    step-Shown c (closes id) v u n w = (close-Shown id c u w, close-AreNamed id c n)

    -- each event is fresh where it happens
    unfoldable pub AreFresh : Core W → List Event → Type 0
    AreFresh c [] = Unit
    AreFresh c (e ∷ es) = IsFresh c e × AreFresh (step cfg c e) es

    -- In a valid Core, after any calls, each session has at most one pending confirmation, and one only
    -- while its state is `confirm`; a confirmation without such a session is not pending. This holds if
    -- it holds at the start, no session has the empty identifier then, the identifiers that are drawn
    -- for new sessions are not empty and not in use, no session is stale that `sessions.create` drops
    -- without cancelling (in `authenticate`: none becomes stale between the two readings of the clock),
    -- and no empty identifier is closed.
    pub run-Shown :
        (c : Core W) (es : List Event)
        → Inv c
        → AreFresh c es
        → AreNamed c
        → Shown c
        → Shown (run cfg c es)
    unfolding run AreFresh
    run-Shown c [] v f n w = w
    run-Shown c (e ∷ es) v f n w =
        let x = step-Shown c e v f.0 n w in
        run-Shown (step cfg c e) es (step-Inv cfg c e v) f.1 x.1 x.0
