-- ===== src/Core/State/ShownPruning.antt =====
-- Each session has at most one pending confirmation, and only while its screen asks for it, through
-- every call of `PipaCore` in backend/pipa_core/core.py.
use pipa_personal_assistant.Prelude.{
  ℕ, ◌≤◌, ◌≡◌, inl, inr, String, Bool, true, false, Option, none, some, List, [], ◌∷◌, arith,
  Option-cases, Bool-cases, ◌==◌, eq_iff, contains, subst, ap, ◌∙◌,
}
use pipa_personal_assistant.Prelude.Text.{is_empty}
use pipa_personal_assistant.Prelude.Dict.{Dict, lookup, drop_where, keys_where, Each, Unique}
use pipa_personal_assistant.Prelude.Dict.Laws.{lookup-drop_where, lookup-Each}
use pipa_personal_assistant.Prelude.Dict.Counts.{
  count_where-drop_where, count_where-drop_where_self,
}
use pipa_personal_assistant.Sessions.{DeviceSession, prune, is_stale}
use pipa_personal_assistant.Confirmations.{ConfirmationManager, is_owned_by, cancel_for_owner}
use pipa_personal_assistant.Confirmations.Counts.{owned}
use pipa_personal_assistant.Tools.Router.{ToolRouter, cancel_pending}
use pipa_personal_assistant.Core.State.{Core, cancel_each, prune_stale}
use pipa_personal_assistant.Core.State.Shown.{allowance, Shown}

pub cancel-owned :
    (owner : Option String) (id : String) (m : ConfirmationManager)
    → owned owner (cancel_for_owner id m).1 ≤ owned owner m
unfolding cancel_for_owner
cancel-owned owner id m = elim (Bool-cases (is_empty id)) [
  | inl e ↦ rw (e, cancel_for_owner) (omega arith)
  | inr e ↦
      rw (e, cancel_for_owner)
        (count_where-drop_where (is_owned_by owner) (is_owned_by (some id)) m.pending)
]

pub cancel-own :
    (id : String) (m : ConfirmationManager)
    → is_empty id ≡ false
    → owned (some id) (cancel_for_owner id m).1 ≡ 0
unfolding cancel_for_owner
cancel-own id m e =
    rw (e, cancel_for_owner) (count_where-drop_where_self (is_owned_by (some id)) m.pending)

keys_where-contains {ℓ} :
    {V : Type ℓ} (p : V → Bool) (k : String) (d : Dict V) {v : V}
    → lookup k d ≡ some v
    → p v ≡ true
    → contains k (keys_where p d) ≡ true
unfolding contains
keys_where-contains p k [] e h = absurd (cc)
keys_where-contains p k ((j, w) ∷ d) {v} e h = elim (Bool-cases (j == k)) [
  | inl b ↦ let f : w ≡ v = ground arith in ground (arith, ap p f)
  | inr b ↦
      let f : lookup k d ≡ some v = ground arith in ground (arith, keys_where-contains p k d f h)
]

-- no identifier is the empty text
abbrev pub IsNamed : String → DeviceSession → Type 0
IsNamed k s = is_empty k ≡ false

module _ {W : Type 0} where
  cancel_each-owned :
      (owner : Option String) (ids : List String) (r : ToolRouter W)
      → owned owner (cancel_each ids r).confirmations ≤ owned owner r.confirmations
  unfolding cancel_each cancel_pending
  cancel_each-owned owner [] r = omega arith
  cancel_each-owned owner (id ∷ ids) r = omega (
    arith,
    cancel_each-owned owner ids (cancel_pending id r).1,
    cancel-owned owner id r.confirmations,
  )

  cancel_each-own :
      (o : String) (ids : List String) (r : ToolRouter W)
      → is_empty o ≡ false
      → contains o ids ≡ true
      → owned (some o) (cancel_each ids r).confirmations ≡ 0
  unfolding cancel_each cancel_pending contains
  cancel_each-own o [] r u h = absurd (cc)
  cancel_each-own o (id ∷ ids) r u h = elim (Bool-cases (id == o)) [
    | inl b ↦
        let f : id ≡ o = (eq_iff id o).0 b in
        let z : owned (some o) (cancel_for_owner id r.confirmations).1 ≡ 0 =
          rw f (cancel-own o r.confirmations u) in
        omega (arith, cancel_each-owned (some o) ids (cancel_pending id r).1, z)
    | inr b ↦ cancel_each-own o ids (cancel_pending id r).1 u (ground arith)
  ]

  pub prune_stale-Shown :
      (now : ℕ) (c : Core W)
      → Unique c.sessions
      → Each IsNamed c.sessions
      → Shown c
      → Shown (prune_stale now c)
  unfolding prune_stale prune allowance
  prune_stale-Shown now c u n v = record {
    ownerless = omega (
      arith,
      v.ownerless,
      cancel_each-owned none (keys_where (is_stale now) c.sessions) c.router,
    );
    shown = λ o.
        let l = lookup-drop_where o (is_stale now) c.sessions u in
        let ids = keys_where (is_stale now) c.sessions in
        elim (Option-cases (lookup o c.sessions)) [
          | inl e ↦
              let b : owned (some o) c.router.confirmations ≤ 0 =
                subst (λ x. owned (some o) c.router.confirmations ≤ allowance x) e (v.shown o) in
              rw (l, e) (omega (arith, b, cancel_each-owned (some o) ids c.router))
          | inr (s, e) ↦ elim (Bool-cases (is_stale now s)) [
            | inl b ↦ omega (
              arith,
              cancel_each-own o ids c.router (lookup-Each IsNamed o s c.sessions n e)
                  (keys_where-contains (is_stale now) o c.sessions e b),
            )
            | inr b ↦
                let g : lookup o (drop_where (is_stale now) c.sessions) ≡ lookup o c.sessions =
                  l ∙ (rw e (simp b)) in
                rw g (omega (arith, v.shown o, cancel_each-owned (some o) ids c.router))
          ]
        ];
  }
