-- ===== src/Core/State/Hello.antt =====
-- The order that `handle` of backend/pipa_core/core.py holds a session to: first a `device_hello`,
-- and while a confirmation is on the screen only its answer.
use pipa_personal_assistant.Prelude.{
  ◌≡◌, refl, String, true, false, Option, none, some, [], ◌∷◌, ap, Bool-cases, inl, inr,
}
use pipa_personal_assistant.Prelude.Int.{ℤ}
use pipa_personal_assistant.Prelude.Dict.{lookup}
use pipa_personal_assistant.Protocol.{
  ClientMessage, device_hello, catalog_request, abort, ping, device_status, confirm,
}
use pipa_personal_assistant.Protocol.Server.{
  UiState, idle, error, ui_state, pong, status_ack, device_hello_ack, tts_aborted,
}
use pipa_personal_assistant.Sessions.{DeviceSession, touch, ui_message}
use pipa_personal_assistant.Tools.Router.{cancel_pending}
use pipa_personal_assistant.Core.Catalog.Response.{catalog_response}
use pipa_personal_assistant.Core.State.{Core, Config, Tick, Reply, save, respond, prune_stale}
use pipa_personal_assistant.Core.State.Guards.{
  is_pre_hello, is_answer, is_waiting, hello_required, confirmation_required, commands_read,
  capabilities_read,
}
use pipa_personal_assistant.Core.State.Handle.{
  cancel_own, confirm_pending, act, act_unless_waiting, serve, serve_if_ready, greet, receive,
  handle_known, handle,
}

module _ {W : Type 0} where
  -- an `abort`: the confirmations of the session go, and its screen is idle
  abbrev pub aborted : DeviceSession → Core W → Reply W
  aborted s c =
      respond idle none tts_aborted s
        (record c { router = (cancel_pending s.session_id c.router).1 })

  abbrev pub with_status : Option String → Option ℤ → Option ℤ → DeviceSession → Core W → Reply W
  with_status audio battery wifi s c = (
    status_ack ∷ [],
    save (record s { audio_state = audio; battery_percent = battery; wifi_rssi = wifi }) c,
  )

  -- What a session that has not said hello gets for each message: a ping, a status, its hello and an
  -- abort are served.
  unfoldable pub before_hello : ClientMessage → DeviceSession → Core W → Reply W
  before_hello (ping request_id) s c = (pong request_id ∷ [], c)
  before_hello (device_status audio battery wifi) s c = with_status audio battery wifi s c
  before_hello (device_hello firmware capabilities) s c = (
    device_hello_ack ∷ [],
    save
        (record s {
          firmware_version = firmware;
          capabilities = capabilities;
          capabilities_initialized = true;
        })
        c,
  )
  before_hello abort s c = aborted s c
  before_hello m s c = (hello_required ∷ [], c)

  -- What a session with a confirmation on its screen gets for each message: a ping, a status, the
  -- catalog, an abort and the answer to a confirmation are served.
  unfoldable pub while_waiting : Config W → Tick → ClientMessage → DeviceSession → Core W → Reply W
  while_waiting cfg t (ping request_id) s c = (pong request_id ∷ [], c)
  while_waiting cfg t (device_status audio battery wifi) s c = with_status audio battery wifi s c
  while_waiting cfg t (device_hello _ _) s c = (error "device_hello_not_expected" ∷ [], c)
  while_waiting cfg t catalog_request s c = (
    catalog_response c.router.catalog (commands_read cfg c.router.world)
          (capabilities_read cfg c.router.world)
        ∷ [],
    c,
  )
  while_waiting cfg t abort s c = aborted s c
  while_waiting cfg t (confirm id accepted) s c = confirm_pending t id accepted s c
  while_waiting cfg t m s c = (confirmation_required ∷ ui_state (ui_message s) ∷ [], c)

  module _ (cfg : Config W) (t : Tick) where
    receive_before :
        (m : ClientMessage) (s : DeviceSession) (c : Core W)
        → s.capabilities_initialized ≡ false
        → receive cfg t m s c ≡ before_hello m s c
    unfolding receive before_hello serve_if_ready serve greet act_unless_waiting act cancel_own
        is_pre_hello is_answer
    receive_before (ping _) s c u = refl
    receive_before (device_status _ _ _) s c u = refl
    receive_before abort s c u = elim (Bool-cases (is_waiting s.state)) [
      | inl w ↦ simp (serve_if_ready, act_unless_waiting, u, w)
      | inr w ↦ simp (serve_if_ready, act_unless_waiting, u, w)
    ]
    receive_before m s c u = simp (serve_if_ready, greet, u)

    receive_waiting :
        (m : ClientMessage) (s : DeviceSession) (c : Core W)
        → s.capabilities_initialized ≡ true
        → is_waiting s.state ≡ true
        → receive cfg t m s c ≡ while_waiting cfg t m s c
    unfolding receive while_waiting serve_if_ready serve greet act_unless_waiting act cancel_own
        is_pre_hello is_answer
    receive_waiting (ping _) s c u w = refl
    receive_waiting (device_status _ _ _) s c u w = refl
    receive_waiting m s c u w = simp (serve_if_ready, greet, act_unless_waiting, u, w)

    -- Until the session's `device_hello`, `handle` is the reference `before_hello`, for every message:
    -- a ping gets its pong, a status is stored, the first `device_hello` is taken, an abort cancels
    -- the confirmations of the session, and every other message gets the error
    -- `device_hello_required` and changes nothing but the time at which the session was last seen,
    -- after the stale sessions are dropped.
    pub handle-before_hello :
        (id : String) (m : ClientMessage) (c : Core W) {s : DeviceSession}
        → lookup id (prune_stale t.now c).sessions ≡ some s
        → s.capabilities_initialized ≡ false
        → handle cfg t id m c
          ≡ before_hello m (touch t.now s) (save (touch t.now s) (prune_stale t.now c))
    unfolding handle handle_known touch
    handle-before_hello id m c {s} e u =
        rw (handle, e, handle_known)
          (receive_before m (touch t.now s) (save (touch t.now s) (prune_stale t.now c)) u)

    -- While a session that has said hello waits for a confirmation, `handle` is the reference
    -- `while_waiting`, for every message: a ping, a status, a `catalog_request`, an abort and a
    -- `confirm` are served, a `device_hello` gets the error `device_hello_not_expected`, and every
    -- other message the error `confirmation_required` and the screen as it is, and changes nothing but
    -- the time at which the session was last seen, after the stale sessions are dropped.
    pub handle-while_waiting :
        (id : String) (m : ClientMessage) (c : Core W) {s : DeviceSession}
        → lookup id (prune_stale t.now c).sessions ≡ some s
        → s.capabilities_initialized ≡ true
        → s.state ≡ UiState.confirm
        → handle cfg t id m c
          ≡ while_waiting cfg t m (touch t.now s) (save (touch t.now s) (prune_stale t.now c))
    unfolding handle handle_known touch is_waiting
    handle-while_waiting id m c {s} e u w =
        rw (handle, e, handle_known)
          (receive_waiting m (touch t.now s) (save (touch t.now s) (prune_stale t.now c)) u
            (ap is_waiting w))
