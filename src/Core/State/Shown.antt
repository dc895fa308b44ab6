-- ===== src/Core/State/Shown.antt =====
-- A confirmation is pending only while its session shows it: the handlers of
-- backend/pipa_core/core.py.
use pipa_personal_assistant.Prelude.{
  ℕ, ◌≤◌, ◌≡◌, inl, inr, String, false, Option, none, some, arith, Bool-cases, if◌then◌else◌, ◌==◌,
  eq_iff, eq_refl, subst,
}
use pipa_personal_assistant.Prelude.Dict.{lookup, update}
use pipa_personal_assistant.Prelude.Dict.Laws.{lookup-update}
use pipa_personal_assistant.Protocol.Server.{UiState, ServerMessage}
use pipa_personal_assistant.Sessions.{DeviceSession, set_state}
use pipa_personal_assistant.Confirmations.Counts.{owned}
use pipa_personal_assistant.Core.State.{Core, save, respond}
use pipa_personal_assistant.Core.State.Guards.{is_waiting}

-- How many confirmations a session may have: one on the screen that asks for it.
unfoldable pub screen_allowance : UiState → ℕ
screen_allowance state = if is_waiting state then 1 else 0

unfoldable pub allowance : Option DeviceSession → ℕ
unfolding screen_allowance
allowance none = 0
allowance (some s) = screen_allowance s.state

module _ {W : Type 0} where
  -- Every confirmation has an owner, and each owner has one only if it is a session that shows it.
  pub record Shown (c : Core W) : Type 0 where
    pub ownerless : owned none c.router.confirmations ≡ 0
    pub shown :
        (o : String) → owned (some o) c.router.confirmations ≤ allowance (lookup o c.sessions)

  -- The same of all sessions but `id`, which is there and has at most `n` confirmations.
  pub record Others (id : String) (n : ℕ) (c : Core W) : Type 0 where
    pub ownerless : owned none c.router.confirmations ≡ 0
    pub others :
        (o : String)
        → (id == o) ≡ false
        → owned (some o) c.router.confirmations ≤ allowance (lookup o c.sessions)
    pub own : owned (some id) c.router.confirmations ≤ n
    pub stored : DeviceSession
    pub there : lookup id c.sessions ≡ some stored

  pub Others-of_Shown :
      (id : String) (c : Core W) {s : DeviceSession}
      → Shown c
      → lookup id c.sessions ≡ some s
      → Others id (screen_allowance s.state) c
  unfolding allowance
  Others-of_Shown id c {s} v e = record {
    ownerless = v.ownerless;
    others = λ o _. v.shown o;
    own = subst (λ l. owned (some id) c.router.confirmations ≤ allowance l) e (v.shown id);
    stored = s;
    there = e;
  }

  pub save-Shown :
      (id : String) (n : ℕ) (s : DeviceSession) (c : Core W)
      → Others id n c
      → s.session_id ≡ id
      → n ≤ screen_allowance s.state
      → Shown (save s c)
  unfolding save allowance
  save-Shown id n s c v f h = record {
    ownerless = v.ownerless;
    shown = λ o. elim (Bool-cases (id == o)) [
      | inl b ↦
          let g : id ≡ o = (eq_iff id o).0 b in
          subst
            (λ x.
              owned (some x) c.router.confirmations
              ≤ allowance (lookup x (update s.session_id (λ _. s) c.sessions)))
            g
            (rw (lookup-update id s.session_id (λ _. s) c.sessions, v.there, f, eq_refl id)
              (omega (arith, h, v.own)))
      | inr b ↦ rw (lookup-update o s.session_id (λ _. s) c.sessions, f, b) (v.others o b)
    ];
  }

  pub respond-Shown :
      (id : String) (n : ℕ) (state : UiState) (caption : Option String) (m : ServerMessage)
      (s : DeviceSession) (c : Core W)
      → Others id n c
      → s.session_id ≡ id
      → n ≤ screen_allowance state
      → Shown (respond state caption m s c).1
  unfolding respond set_state
  respond-Shown id n state caption m s c v f h = save-Shown id n (set_state state caption s) c v f h
