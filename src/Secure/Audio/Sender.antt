-- ===== src/Secure/Audio/Sender.antt =====
-- `SecureAudioSender`. A call returns it beside its result. Samples are `bytes` and the final marker
-- is a `bool`, which the source tests and the types say here.
use pipa_personal_assistant.Prelude.{
  ℕ, ◌+◌, ◌-◌, ltb, nat_eq, String, Bool, true, false, ◌&&◌, not, length, Result, ok, err, ◌>>=◌,
  ◌>>◌, require,
}
use pipa_personal_assistant.Prelude.Bytes.{Bytes}
use pipa_personal_assistant.Json.{Value, Fields, end, field}
use pipa_personal_assistant.Secure.Crypto.{Crypto}
use pipa_personal_assistant.Secure.Session.{RecordError, SecureSession, seal}
use pipa_personal_assistant.Secure.Audio.{
  max_audio_chunks, max_audio_stream_bytes, AudioError, Metadata, validate_stream_id,
  validate_metadata, metadata_fields, additional_data, is_chunk_size, unfinished_at_limit,
  invalid_chunk_size, already_finished, too_many_chunks, stream_too_large, record_error,
}

-- `frame.update(metadata)`, on a frame of `seal`, which has none of these keys
unfoldable pub update : Fields → Fields → Fields
update end m = m
update (field k v f) m = field k v (update f m)

pub record AudioSender : Type 0 where
  pub session : SecureSession
  pub stream_id : String
  pub next_chunk : ℕ
  pub stream_bytes : ℕ
  pub finished : Bool

-- `SecureAudioSender(session, stream_id)`
unfoldable pub new_sender : SecureSession → Value → Result AudioError AudioSender
new_sender session v = do
  stream_id ← validate_stream_id v
  ok (record {
    session = session;
    stream_id = stream_id;
    next_chunk = 0;
    stream_bytes = 0;
    finished = false;
  })

-- the checks of `seal_chunk`
unfoldable pub check_chunk : Bytes → Bool → AudioSender → Result AudioError Metadata
check_chunk samples final s = do
  require (not s.finished) already_finished
  require (ltb s.next_chunk max_audio_chunks) too_many_chunks
  require (is_chunk_size (length samples)) invalid_chunk_size
  require (not (ltb max_audio_stream_bytes (s.stream_bytes + length samples))) stream_too_large
  require (not (nat_eq s.next_chunk (max_audio_chunks - 1) && not final)) unfinished_at_limit
  validate_metadata (
      metadata_fields
        (record { chunk_index = s.next_chunk; final = final; stream_id = s.stream_id }))

module _ (c : Crypto) where
  -- the frame that goes out, if the session sealed it
  abbrev sealed_chunk :
      Bytes
      → Metadata
      → AudioSender
      → Result RecordError Fields × SecureSession
      → Result AudioError Fields × AudioSender
  sealed_chunk samples m s (err e, session) = (err (record_error e), record s { session = session })
  sealed_chunk samples m s (ok f, session) = (
    ok (update f (metadata_fields m)),
    record s {
      session = session;
      next_chunk = s.next_chunk + 1;
      stream_bytes = s.stream_bytes + length samples;
      finished = m.final;
    },
  )

  -- `seal_chunk`
  unfoldable pub seal_chunk : Bytes → Bool → AudioSender → Result AudioError Fields × AudioSender
  seal_chunk samples final s = elim (check_chunk samples final s) [
    | err e ↦ (err e, s)
    | ok m ↦ sealed_chunk samples m s (seal c samples (additional_data m) s.session)
  ]

-- `cancel` of the sender
unfoldable pub cancel_sender : AudioSender → AudioSender
cancel_sender s = record s { finished = true; next_chunk = 0; stream_bytes = 0 }
