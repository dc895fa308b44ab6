-- ===== src/Tools/Gate.antt =====
-- The confirmation gate: an unsafe tool acts on the world only through a consumed confirmation, and
-- then exactly as it was prepared.
use pipa_personal_assistant.Prelude.{
  ℕ, ◌+◌, ◌<◌, ◌≡◌, ◌≢◌, ◌⊎◌, String, Bool, true, false, Option, none, some, Result, ok, err, arith,
  Result-cases, Option-cases, inl, inr,
}
use pipa_personal_assistant.Prelude.Dict.{lookup}
use pipa_personal_assistant.Json.{Value, dict, Fields}
use pipa_personal_assistant.Confirmations.{
  PendingConfirmation, ConfirmationError, Request, create, consume, new_record,
}
use pipa_personal_assistant.Confirmations.OneUse.{created, consume_iff}
use pipa_personal_assistant.Tools.{Exn, Safety, ToolDefinition, validate_arguments, get_tool}
use pipa_personal_assistant.Tools.Router.{
  ToolRouter, ConfirmationView, request_of, needs_confirmation, completed, Resolution, executed,
  CallInfo, create_pending, consume_pending, ask_with, ask, dispatch, invoke, resolve_accepted,
  resolve_confirmation, pure, ◌>>=◌, as_dict,
}

-- What a question leaves in the manager: the snapshot, for the owner and the manager's time.
pub record IsAsked (name : String) (info : CallInfo) (snapshot : Fields) (ttl : ℕ)
    (r : PendingConfirmation) : Type 0 where
  pub tool : r.tool_name ≡ name
  pub prepared : r.execution_arguments ≡ some snapshot
  pub owner : r.owner_id ≡ info.owner_id
  pub deadline : r.expires_at ≡ info.now + ttl

-- What the handler's result becomes: its exception, or a completed resolution.
abbrev pub finished : PendingConfirmation → Result Exn Fields → Result Exn Resolution
finished r (ok out) = ok (executed r.tool_name r.call_id out)
finished r (err e) = err e

module _ {W : Type 0} where
  ask_world :
      (name : String) (info : CallInfo) (d : ToolDefinition W) (values : Fields) (s : ToolRouter W)
      → (ask name info d values s).1.world ≡ s.world
  unfolding ask
  ask_world name info d values s = ground arith

  ask_never_completes :
      (name : String) (info : CallInfo) (d : ToolDefinition W) (values : Fields) (s : ToolRouter W)
      (out : Fields)
      → (ask name info d values s).0 ≢ ok (completed out)
  unfolding ask
  ask_never_completes name info d values s out = ground arith

  -- Without a confirmation an unsafe tool does not touch the world and returns no result, whatever
  -- its callbacks do.
  pub unsafe_waits :
      (name : String) (arguments : Value) (info : CallInfo) (s : ToolRouter W)
      {d : ToolDefinition W}
      → get_tool name s.catalog ≡ ok d
      → d.safety ≡ Safety.unsafe
      → ((invoke name arguments none info s).1.world ≡ s.world)
        × ((out : Fields) → (invoke name arguments none info s).0 ≢ ok (completed out))
  unfolding invoke dispatch
  unsafe_waits name arguments info s {d} g u =
      elim (Result-cases (validate_arguments d arguments s.world)) [
        | inl (values, e) ↦ (
          ground (arith, ask_world name info d values s),
          λ out. ground (arith, ask_never_completes name info d values s out),
        )
        | inr (x, e) ↦ (ground arith, λ out. ground arith)
      ]

  -- A rejected confirmation, and one that is refused, leave the world as it was.
  pub resolve_without_effect :
      (now : ℕ) (id : String) (accepted : Bool) (owner : Option String) (s : ToolRouter W)
      {e : ConfirmationError}
      → (accepted ≡ false) ⊎ ((consume now id owner s.confirmations).0 ≡ err e)
      → (resolve_confirmation now id accepted owner s).1.world ≡ s.world
  unfolding resolve_confirmation consume_pending
  resolve_without_effect now id accepted owner s h = ground arith

  -- An accepted confirmation runs the tool's handler once, on the arguments that were prepared when
  -- the user was asked, or on the validated ones where the tool prepares none; the world is what the
  -- handler leaves, and the confirmation is gone.
  pub resolve_runs_snapshot :
      (now : ℕ) (id : String) (owner : Option String) (s : ToolRouter W) (values : Fields)
      {r : PendingConfirmation} {d : ToolDefinition W}
      → (consume now id owner s.confirmations).0 ≡ ok r
      → get_tool r.tool_name s.catalog ≡ ok d
      → r.execution_arguments ≡ some values
      → let (out, s') = resolve_confirmation now id true owner s in
        (s'.world ≡ (d.handler values s.world).1)
        × (s'.confirmations ≡ (consume now id owner s.confirmations).1)
        × (out ≡ finished r (d.handler values s.world).0)
  unfolding resolve_confirmation consume_pending resolve_accepted
  resolve_runs_snapshot now id owner s values c g x = (ground arith, ground arith, ground arith)

  -- the world of a router, moved on by others between the question and the answer
  abbrev pub in_world : W → ToolRouter W → ToolRouter W
  in_world w s = record s { world = w }

  -- `ask_with`, once the callbacks have returned
  ask_with_eq :
      (name text : String) (info : CallInfo) (f : Fields → W → Result Exn String)
      (d : ToolDefinition W) (values snapshot : Fields) (s : ToolRouter W)
      {p : Fields → W → Result Exn Value}
      → d.confirmation_preparer ≡ some p
      → p values s.world ≡ ok (dict snapshot)
      → f values s.world ≡ ok text
      → ask_with name info f d values s
        ≡ (do
          pending ←
              create_pending info.now info.fresh (request_of name info values text (some snapshot))
          pure (needs_confirmation (as_dict pending)))
            s
  unfolding ask_with
  ask_with_eq name text info f d values snapshot s dp e te = rw (ask_with, dp, e, te)

  IsAsked-with :
      (name : String) (info : CallInfo) (f : Fields → W → Result Exn String) (d : ToolDefinition W)
      (values snapshot : Fields) (s : ToolRouter W) {v : ConfirmationView}
      {p : Fields → W → Result Exn Value}
      → (ask_with name info f d values s).0 ≡ ok (needs_confirmation v)
      → d.confirmation_preparer ≡ some p
      → p values s.world ≡ ok (dict snapshot)
      → (r : PendingConfirmation) × IsAsked name info snapshot s.confirmations.ttl_seconds r
        × (lookup v.confirmation_id (ask_with name info f d values s).1.confirmations.pending
            ≡ some r)
        × ((ask_with name info f d values s).1.catalog ≡ s.catalog)
  unfolding create_pending as_dict new_record
  IsAsked-with name info f d values snapshot s {v} {p} h dp e =
      elim (Result-cases (f values s.world)) [
        | inr (x, failed) ↦ absurd (unfold ask_with in ground arith)
        | inl (text, te) ↦
            let q : Request = request_of name info values text (some snapshot) in
            let w = ask_with_eq name text info f d values snapshot s dp e te in
            elim (Result-cases (create info.now info.fresh q s.confirmations).0) [
              | inr (x, refused) ↦ absurd (ground (arith, w))
              | inl (r, ce) ↦
                  let c = created info.now info.fresh q s.confirmations ce in
                  (
                    r,
                    record { tool = rw c.3; prepared = rw c.3; owner = c.2; deadline = c.1 },
                    ground (arith, w, c.0, c.3),
                    ground (arith, w),
                  )
            ]
      ]

  -- asking, with the tool and its callbacks found
  asked :
      (name : String) (arguments : Value) (info : CallInfo) (s : ToolRouter W)
      {d : ToolDefinition W} {values snapshot : Fields} {v : ConfirmationView}
      {p : Fields → W → Result Exn Value}
      → get_tool name s.catalog ≡ ok d
      → d.safety ≡ Safety.unsafe
      → validate_arguments d arguments s.world ≡ ok values
      → d.confirmation_preparer ≡ some p
      → p values s.world ≡ ok (dict snapshot)
      → (invoke name arguments none info s).0 ≡ ok (needs_confirmation v)
      → (r : PendingConfirmation) × IsAsked name info snapshot s.confirmations.ttl_seconds r
        × (lookup v.confirmation_id (invoke name arguments none info s).1.confirmations.pending
            ≡ some r)
        × ((invoke name arguments none info s).1.catalog ≡ s.catalog)
  unfolding invoke dispatch
  asked name arguments info s {d} {values} {snapshot} {v} g u va dp e h =
      elim (Option-cases d.confirm_summary) [
        | inl missing ↦ absurd (unfold ask in ground arith)
        | inr (f, fe) ↦
            let a : ask name info d values s ≡ ask_with name info f d values s =
              unfold ask in rw fe in
            let i : invoke name arguments none info s ≡ ask name info d values s =
              rw (invoke, g, va, u) in
            rw (i, a)
              (IsAsked-with name info f d values snapshot s {v = v} (ground (arith, i, a)) dp e)
      ]

  -- What the user approves is what runs: however the world has moved since the question, the
  -- handler of the tool acts on the arguments that were prepared with the preview.
  pub confirmed_as_previewed :
      (name : String) (arguments : Value) (info : CallInfo) (s : ToolRouter W) (later : ℕ) (w : W)
      {d : ToolDefinition W} {values snapshot : Fields} {v : ConfirmationView}
      {p : Fields → W → Result Exn Value}
      → get_tool name s.catalog ≡ ok d
      → d.safety ≡ Safety.unsafe
      → validate_arguments d arguments s.world ≡ ok values
      → d.confirmation_preparer ≡ some p
      → p values s.world ≡ ok (dict snapshot)
      → (invoke name arguments none info s).0 ≡ ok (needs_confirmation v)
      → later < info.now + s.confirmations.ttl_seconds
      → let s' = in_world w (invoke name arguments none info s).1 in
        (resolve_confirmation later v.confirmation_id true info.owner_id s').1.world
        ≡ (d.handler snapshot w).1
  confirmed_as_previewed name arguments info s later w {d} {values} {snapshot} {v} g u va dp e h t =
      let (r, a, found, kept) = asked name arguments info s g u va dp e h in
      let s' = in_world w (invoke name arguments none info s).1 in
      let c : (consume later v.confirmation_id info.owner_id s'.confirmations).0 ≡ ok r =
        (consume_iff later v.confirmation_id info.owner_id s'.confirmations r).1
          (found, (omega (arith, a.deadline), inr a.owner)) in
      (resolve_runs_snapshot later v.confirmation_id info.owner_id s' snapshot {d = d} c
        (rw (a.tool, kept) g) a.prepared).0
