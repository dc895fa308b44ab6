-- ===== src/Secure/Capture/Bridge.antt =====
-- `SecureAudioCommandBridge`: it dispatches the transcript of a finished stream and closes.
pub mod Ending
pub mod Consent
pub mod Spoken
use pipa_personal_assistant.Prelude.{
  String, Bool, true, false, ◌||◌, not, Option, none, some, List, [], ◌∷◌, if◌then◌else◌, Result,
  ok, err,
}
use pipa_personal_assistant.Json.{Value}
use pipa_personal_assistant.Secure.Crypto.{Crypto}
use pipa_personal_assistant.Secure.Audio.{
  AudioError, already_dispatched, dispatch_unavailable, dispatch_failed, bridge_closed,
}
use pipa_personal_assistant.Secure.Capture.{Readiness, mark_codec_ready}
use pipa_personal_assistant.Secure.Capture.Consumer.{Summary}
use pipa_personal_assistant.Secure.Capture.Transcriber
use pipa_personal_assistant.Secure.Capture.Transcriber.{
  Callbacks, AudioTranscriber, Effect, dispatched, is_closed,
}

-- The references to the transcriber and the dispatcher are dropped together: `attached`.
pub record CommandBridge : Type 0 where
  pub transcriber : AudioTranscriber
  pub attached : Bool
  pub done : Bool

-- what the callbacks were given, the newest first
abbrev pub given : CommandBridge → List Effect
given b = b.transcriber.hearing.given

module _ (cb : Callbacks) where
  unfoldable pub close : CommandBridge → CommandBridge
  close b =
      if b.attached
      then record b { transcriber = Transcriber.close cb b.transcriber; attached = false }
      else b

  -- `_require_transcriber` refuses
  abbrev pub is_detached : CommandBridge → Bool
  is_detached b = not b.attached || is_closed b.transcriber

  unfoldable pub begin_capture :
      Readiness → CommandBridge → Result AudioError (Unit {0}) × CommandBridge
  begin_capture a b =
      if is_detached b
      then (err bridge_closed, close b)
      else let (r, t) = Transcriber.begin_capture a b.transcriber in
        (r, record b { transcriber = t })

  unfoldable pub consume_frame :
      Crypto → Value → CommandBridge → Result AudioError Bool × CommandBridge
  consume_frame c v b =
      if is_detached b
      then (err bridge_closed, close b)
      else let (r, t) = Transcriber.consume_frame cb c v b.transcriber in
        (r, record b { transcriber = t })

  -- the call of the dispatcher, and the close that follows it
  unfoldable pub dispatch :
      Summary → Option String → CommandBridge → Result AudioError (Summary × Value) × CommandBridge
  dispatch summary none b = (err dispatch_unavailable, close b)
  dispatch summary (some s) b =
      let given = dispatched s ∷ b.transcriber.hearing.given in
      let h = record b.transcriber.hearing { given = given } in
      let after = record b { transcriber = record b.transcriber { hearing = h } } in
      elim (cb.dispatch given) [
        | none ↦ (err dispatch_failed, close after)
        | some v ↦ (ok (summary, v), close (record after { done = true }))
      ]

  -- after `finalize` of the transcriber
  unfoldable pub dispatch_finalized :
      CommandBridge
      → Result AudioError Summary × AudioTranscriber
      → Result AudioError (Summary × Value) × CommandBridge
  dispatch_finalized b (err e, t) = (err e, close (record b { transcriber = t }))
  dispatch_finalized b (ok summary, t) =
      dispatch summary (Transcriber.transcript t) (record b { transcriber = t })

  unfoldable pub finalize : CommandBridge → Result AudioError (Summary × Value) × CommandBridge
  finalize b =
      if b.done
      then (err already_dispatched, b)
      else if is_detached b
      then (err bridge_closed, close b)
      else dispatch_finalized b (Transcriber.finalize cb b.transcriber)

  abbrev cancelled :
      CommandBridge
      → Result AudioError (Unit {0}) × AudioTranscriber
      → Result AudioError (Unit {0}) × CommandBridge
  cancelled b (err e, t) = (err e, record b { transcriber = t })
  cancelled b (ok _, t) = (ok tt, record b { transcriber = t; done = false })

  unfoldable pub cancel : CommandBridge → Result AudioError (Unit {0}) × CommandBridge
  cancel b = if b.attached then cancelled b (Transcriber.cancel cb b.transcriber) else (ok tt, b)

-- `mark_codec_ready` of the gate, by the code that initializes the codec
unfoldable pub mark_ready : Bool → CommandBridge → CommandBridge
mark_ready initialized b =
    let t = b.transcriber in
    let k = t.consumer in
    let (entered, g) = mark_codec_ready initialized k.gate in
    record b { transcriber = record t { consumer = record k { gate = g } } }

-- The calls of a bridge and its gate.
pub data Call : Type 0 where
  marks : Bool → Call
  begins : Readiness → Call
  consumes : Value → Call
  finalizes cancels closes : Call

unfoldable pub step : Crypto → Callbacks → CommandBridge → Call → CommandBridge
step c cb b (marks initialized) = mark_ready initialized b
step c cb b (begins a) = (begin_capture cb a b).1
step c cb b (consumes v) = (consume_frame cb c v b).1
step c cb b finalizes = (finalize cb b).1
step c cb b cancels = (cancel cb b).1
step c cb b closes = close cb b

unfoldable pub run : Crypto → Callbacks → CommandBridge → List Call → CommandBridge
run c cb b [] = b
run c cb b (x ∷ xs) = run c cb (step c cb b x) xs
