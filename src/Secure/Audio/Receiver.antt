-- ===== src/Secure/Audio/Receiver.antt =====
-- `SecureAudioReceiver`. A call returns it beside its result.
use pipa_personal_assistant.Prelude.{
  ℕ, ◌+◌, ◌*◌, ◌/◌, ltb, nat_eq, String, Bool, false, not, Option, none, some, ◌==◌, if◌then◌else◌,
  length, Result, ok, err, ◌>>=◌, ◌>>◌, require,
}
use pipa_personal_assistant.Prelude.Bytes.{Bytes}
use pipa_personal_assistant.Json.{Value, dict}
use pipa_personal_assistant.Secure.Crypto.{Crypto}
use pipa_personal_assistant.Secure.Session.{RecordError, SecureSession, open_frame, close}
use pipa_personal_assistant.Secure.Audio.{
  audio_sample_rate, audio_channels, audio_bytes_per_sample, max_audio_stream_bytes, AudioError,
  Metadata, has_frame_fields, validate_metadata, additional_data, is_chunk_size, invalid_chunk_size,
  already_finished, stream_too_large, wrong_fields, not_at_zero, stream_changed, out_of_order,
  authentication_failed,
}

pub record AudioReceiver : Type 0 where
  pub session : SecureSession
  pub stream_id : Option String
  pub next_chunk : ℕ
  pub stream_bytes : ℕ
  pub finished : Bool

-- `SecureAudioReceiver(session)`
unfoldable pub new_receiver : SecureSession → AudioReceiver
new_receiver session = record {
  session = session;
  stream_id = none;
  next_chunk = 0;
  stream_bytes = 0;
  finished = false;
}

-- `_discard_state`, which is `cancel`
unfoldable pub discard_state : AudioReceiver → AudioReceiver
discard_state r = record r { stream_id = none; next_chunk = 0; stream_bytes = 0; finished = false }

-- `close`
unfoldable pub close_receiver : AudioReceiver → AudioReceiver
close_receiver r = discard_state (record r { session = close r.session })

abbrev pub stream_duration_ms : AudioReceiver → ℕ
stream_duration_ms r =
    r.stream_bytes * 1000 / (audio_sample_rate * audio_channels * audio_bytes_per_sample)

unfoldable pub check_stream : Metadata → Option String → Result AudioError (Unit {0})
check_stream m none = require (nat_eq m.chunk_index 0) not_at_zero
check_stream m (some id) = require (m.stream_id == id) stream_changed

-- the checks of `open_chunk` before it decrypts
unfoldable pub check_frame : Value → AudioReceiver → Result AudioError Metadata
check_frame (dict f) r = do
  require (has_frame_fields f) wrong_fields
  m ← validate_metadata f
  require (not r.finished) already_finished
  check_stream m r.stream_id
  require (nat_eq m.chunk_index r.next_chunk) out_of_order
  ok m
check_frame _ r = err wrong_fields

-- what `open_chunk` does with the plaintext of the session, which may have moved on
unfoldable pub take_chunk :
    Metadata
    → AudioReceiver
    → Result RecordError Bytes × SecureSession
    → Result AudioError Bytes × AudioReceiver
take_chunk m r (err e, session) =
    (err (authentication_failed e), close_receiver (record r { session = session }))
take_chunk m r (ok p, session) =
    if not (is_chunk_size (length p))
    then (err invalid_chunk_size, close_receiver (record r { session = session }))
    else if ltb max_audio_stream_bytes (r.stream_bytes + length p)
    then (err stream_too_large, close_receiver (record r { session = session }))
    else (
      ok p,
      record {
        session = session;
        stream_id = some m.stream_id;
        next_chunk = r.next_chunk + 1;
        stream_bytes = r.stream_bytes + length p;
        finished = m.final;
      },
    )

module _ (c : Crypto) where
  -- `open_chunk`; an error of any kind discards the stream and closes the session
  unfoldable pub open_chunk : Value → AudioReceiver → Result AudioError Bytes × AudioReceiver
  open_chunk v r = elim (check_frame v r) [
    | err e ↦ (err e, close_receiver r)
    | ok m ↦ take_chunk m r (open_frame c v (additional_data m) r.session)
  ]
