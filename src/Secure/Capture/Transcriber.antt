-- ===== src/Secure/Capture/Transcriber.antt =====
-- `SecureAudioTranscriber`: it gives the chunks to a provider, which may answer the final one with a
-- transcript. The callbacks are functions of what was given to all of them, the newest first, so
-- they may keep any state; they are not taken to call the objects back.
pub mod Counts
use pipa_personal_assistant.Prelude.{
  String, Bool, true, false, ◌||◌, Option, none, some, List, ◌∷◌, if◌then◌else◌, Result, ok, err,
}
use pipa_personal_assistant.Prelude.Bytes.{Bytes}
use pipa_personal_assistant.Prelude.Text.{strip}
use pipa_personal_assistant.Json.{Value, null}
use pipa_personal_assistant.TextPolicy.{validate_bounded_text}
use pipa_personal_assistant.Secure.Crypto.{Crypto}
use pipa_personal_assistant.Secure.Audio.{
  AudioError, consumer_failed, transcriber_closed, no_transcript, second_transcript,
  partial_transcript, provider_unavailable, invalid_transcript, reset_failed,
}
use pipa_personal_assistant.Secure.Capture.{Readiness}
use pipa_personal_assistant.Secure.Capture.Consumer
use pipa_personal_assistant.Secure.Capture.Consumer.{AudioConsumer, Summary}

-- What a callback is given: the provider a chunk and whether it is the final one, the reset of the
-- provider nothing, and the dispatcher a transcript.
pub data Effect : Type 0 where
  heard : Bytes → Bool → Effect
  was_reset : Effect
  dispatched : String → Effect

-- `none` and false are exceptions. What is returned stands as a value, `null` for `None`.
pub record Callbacks : Type 0 where
  pub provider : List Effect → Option Value
  pub reset_provider : Option (List Effect → Bool)
  pub dispatch : List Effect → Option Value

-- what `_consume_chunk` changes
pub record Hearing : Type 0 where
  pub transcript : Option String
  pub given : List Effect

-- The provider is dropped exactly when `provider_closed` is set.
pub record AudioTranscriber : Type 0 where
  pub consumer : AudioConsumer
  pub hearing : Hearing
  pub provider_closed : Bool
  pub finalized : Bool

abbrev pub is_closed : AudioTranscriber → Bool
is_closed t = t.provider_closed || t.consumer.closed

-- the property `transcript`
unfoldable pub transcript : AudioTranscriber → Option String
transcript t = if t.finalized then t.hearing.transcript else none

-- what `_consume_chunk` does with the result of the provider
unfoldable pub take_result : Bool → Hearing → Option Value → Result AudioError (Unit {0}) × Hearing
take_result final h none = (err consumer_failed, h)
take_result final h (some null) = (ok tt, h)
take_result false h (some v) = (err partial_transcript, h)
take_result true h (some v) = elim (validate_bounded_text 4000 false v) [
  | ok s ↦ (ok tt, record h { transcript = some (strip s) })
  | err e ↦ (err invalid_transcript, h)
]

unfoldable pub begin_capture :
    Readiness → AudioTranscriber → Result AudioError (Unit {0}) × AudioTranscriber
begin_capture a t =
    let (r, k) = Consumer.begin_capture a t.consumer in (r, record t { consumer = k })

module _ (cb : Callbacks) where
  -- `_consume_chunk`
  unfoldable pub consume_chunk :
      Bool → Bytes → Bool → Hearing → Result AudioError (Unit {0}) × Hearing
  consume_chunk provider_closed p final h = elim h.transcript [
    | some s ↦ (err second_transcript, h)
    | none ↦
        if provider_closed
        then (err provider_unavailable, h)
        else let given = heard p final ∷ h.given in
          take_result final (record h { given = given }) (cb.provider given)
  ]

  unfoldable pub consume_frame :
      Crypto → Value → AudioTranscriber → Result AudioError Bool × AudioTranscriber
  consume_frame c v t =
      if is_closed t
      then (err transcriber_closed, t)
      else let (r, k, h) =
          Consumer.consume_frame (consume_chunk t.provider_closed) c v t.consumer t.hearing in
        (r, record t { consumer = k; hearing = h })

  -- the call of `reset_provider`, which is skipped where there is none; false is an exception
  unfoldable pub reset : Hearing → Bool × Hearing
  reset h = elim cb.reset_provider [
    | none ↦ (true, h)
    | some f ↦ let given = was_reset ∷ h.given in (f given, record h { given = given })
  ]

  unfoldable pub close : AudioTranscriber → AudioTranscriber
  close t = if t.provider_closed then t else record {
    consumer = Consumer.close t.consumer;
    hearing = record { transcript = none; given = (reset t.hearing).1.given };
    provider_closed = true;
    finalized = false;
  }

  abbrev pub finalized :
      AudioTranscriber
      → Result AudioError Summary × AudioConsumer
      → Result AudioError Summary × AudioTranscriber
  finalized t (err e, k) = (err e, record t { consumer = k })
  finalized t (ok summary, k) = elim t.hearing.transcript [
    | none ↦ (err no_transcript, close (record t { consumer = k }))
    | some s ↦ (ok summary, record t { consumer = k; finalized = true })
  ]

  unfoldable pub finalize : AudioTranscriber → Result AudioError Summary × AudioTranscriber
  finalize t = finalized t (Consumer.finalize t.consumer)

  unfoldable pub cancel : AudioTranscriber → Result AudioError (Unit {0}) × AudioTranscriber
  cancel t =
      if is_closed t
      then (ok tt, t)
      else let k = Consumer.cancel t.consumer in
        let (done, h) = reset t.hearing in
        if done
        then (
          ok tt,
          record {
            consumer = k;
            hearing = record h { transcript = none };
            provider_closed = t.provider_closed;
            finalized = false;
          },
        )
        else (err reset_failed, close (record t { consumer = k; hearing = h }))
