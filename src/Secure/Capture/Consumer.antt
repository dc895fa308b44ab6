-- ===== src/Secure/Capture/Consumer.antt =====
-- `SecureAudioConsumer`: it gives each chunk of a stream to a callback, while the gate listens.
pub mod Closing
use pipa_personal_assistant.Prelude.{
  ℕ, Bool, true, false, ◌||◌, not, if◌then◌else◌, Result, ok, err,
}
use pipa_personal_assistant.Prelude.Bytes.{Bytes}
use pipa_personal_assistant.Json.{Value}
use pipa_personal_assistant.Secure.Crypto.{Crypto}
use pipa_personal_assistant.Secure.Audio.Receiver.{
  AudioReceiver, discard_state, close_receiver, stream_duration_ms, open_chunk,
}
use pipa_personal_assistant.Secure.Audio.{
  AudioError, already_finished, not_ready, consumer_closed, not_active, ended_early, cannot_drain,
}
use pipa_personal_assistant.Secure.Capture.{
  Gate, error, Readiness, begin_listening, drain, is_listening,
}

-- `AudioStreamSummary`
pub record Summary : Type 0 where
  pub stream_bytes : ℕ
  pub stream_duration_ms : ℕ

-- The callback is dropped exactly when the consumer is closed.
pub record AudioConsumer : Type 0 where
  pub receiver : AudioReceiver
  pub gate : Gate
  pub closed : Bool
  pub finished : Bool

unfoldable pub close : AudioConsumer → AudioConsumer
close k = if k.closed then k else record {
  receiver = close_receiver k.receiver;
  gate = error;
  closed = true;
  finished = false;
}

unfoldable pub begin_capture :
    Readiness → AudioConsumer → Result AudioError (Unit {0}) × AudioConsumer
begin_capture a k =
    if k.closed
    then (err not_ready, k)
    else let (begun, g) = begin_listening a k.gate in
      (if begun then ok tt else err not_ready, record k { gate = g })

unfoldable pub finalize : AudioConsumer → Result AudioError Summary × AudioConsumer
finalize k =
    if k.closed || not k.finished || not k.receiver.finished
    then (err ended_early, close k)
    else let (drained, g) = drain k.gate in
      if drained
      then (
        ok (record {
          stream_bytes = k.receiver.stream_bytes;
          stream_duration_ms = stream_duration_ms k.receiver;
        }),
        record k { gate = g },
      )
      else (err cannot_drain, close (record k { gate = g }))

-- the gate after `cancel`
unfoldable pub gate_after_cancel : Gate → Gate
gate_after_cancel g =
    let (drained, h) = drain g in if is_listening g then (if drained then h else error) else g

unfoldable pub cancel : AudioConsumer → AudioConsumer
cancel k = if k.closed then k else record k {
  receiver = discard_state k.receiver;
  gate = gate_after_cancel k.gate;
  finished = false;
}

-- `S` is the state that the callback has; it may raise an `AudioFrameError`, as which any other
-- exception leaves `consume_frame`.
module _ {S : Type 0} where
  -- after the callback
  unfoldable pub consumed :
      Bool
      → AudioConsumer
      → Result AudioError (Unit {0}) × S
      → Result AudioError Bool × AudioConsumer × S
  consumed final k (ok _, s) = (ok final, record k { finished = final }, s)
  consumed final k (err e, s) = (err e, close k, s)

  module _ (on_chunk : Bytes → Bool → S → Result AudioError (Unit {0}) × S) where
    -- after the receiver has opened the frame
    unfoldable pub give_chunk :
        AudioConsumer
        → S
        → Result AudioError Bytes × AudioReceiver
        → Result AudioError Bool × AudioConsumer × S
    give_chunk k s (ok p, r) =
        consumed r.finished (record k { receiver = r }) (on_chunk p r.finished s)
    give_chunk k s (err e, r) = (err e, record k { receiver = r; gate = error; closed = true }, s)

    unfoldable pub consume_frame :
        Crypto → Value → AudioConsumer → S → Result AudioError Bool × AudioConsumer × S
    consume_frame c v k s =
        if k.closed
        then (err consumer_closed, k, s)
        else if k.finished
        then (err already_finished, close k, s)
        else if not (is_listening k.gate)
        then (err not_active, close k, s)
        else give_chunk k s (open_chunk c v k.receiver)
