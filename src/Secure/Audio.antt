-- ===== src/Secure/Audio.antt =====
-- The chunks and the metadata of the audio streams of windows-agent/secure_audio.py. Sender and
-- Receiver are its `SecureAudioSender` and `SecureAudioReceiver`: one stream of PCM chunks over a
-- secure session.
pub mod Sender
pub mod Receiver
pub mod Chunks
pub mod Delivery
pub mod Stream
use pipa_personal_assistant.Prelude.{
  ℕ, ◌+◌, ◌-◌, ◌*◌, ◌/◌, ◌%◌, ltb, nat_eq, between, String, Bool, true, false, ◌&&◌, not, Option,
  none, some, List, [], ◌∷◌, ◌++◌, ◌==◌, if◌then◌else◌, length, all, contains, Result, ok, err,
  ◌>>=◌, ◌>>◌, require,
}
use pipa_personal_assistant.Prelude.Int.{pos, is_nat}
use pipa_personal_assistant.Prelude.Bytes.{Bytes, codes}
use pipa_personal_assistant.Prelude.Text.{len, every}
use pipa_personal_assistant.Json.{
  Value, bool, int, float, str, dict, Fields, end, field, field_names,
}
use pipa_personal_assistant.Secure.Crypto.{Crypto}
use pipa_personal_assistant.Secure.Canonical.{text, number, truth, canonical}
use pipa_personal_assistant.Secure.Session.{
  is_identifier_character, RecordError, SecureSession, value_at, seal, open_frame, close,
}

abbrev pub audio_protocol_version : ℕ
audio_protocol_version = 2

abbrev pub audio_sample_rate : ℕ
audio_sample_rate = 16000

abbrev pub audio_channels : ℕ
audio_channels = 1

abbrev pub audio_bits_per_sample : ℕ
audio_bits_per_sample = 16

abbrev pub audio_bytes_per_sample : ℕ
audio_bytes_per_sample = audio_bits_per_sample / 8

abbrev pub max_audio_chunk_bytes : ℕ
max_audio_chunk_bytes = 4096

abbrev pub max_audio_chunks : ℕ
max_audio_chunks = 64

abbrev pub max_audio_stream_bytes : ℕ
max_audio_stream_bytes = max_audio_chunk_bytes * max_audio_chunks

-- `AUDIO_AAD_PREFIX`
abbrev pub audio_aad_prefix : Bytes
audio_aad_prefix = codes "pipa/audio/v2" ++ (0 ∷ [])

-- `_STREAM_ID_PATTERN`
unfoldable pub is_stream_id : String → Bool
unfolding len every
is_stream_id s = between 1 64 (len s) && every is_identifier_character s

-- a constructor for each `AudioFrameError`, and a `RecordError` that passes through `seal_chunk`
pub data AudioError : Type 0 where
  invalid_stream_id invalid_chunk_index unsupported_version invalid_final : AudioError
  unfinished_at_limit unsupported_format invalid_chunk_size : AudioError
  already_finished too_many_chunks stream_too_large : AudioError
  wrong_fields not_at_zero stream_changed out_of_order : AudioError
  authentication_failed record_error : RecordError → AudioError
  not_ready consumer_closed not_active consumer_failed ended_early cannot_drain : AudioError
  transcriber_closed no_transcript second_transcript partial_transcript : AudioError
  provider_unavailable : AudioError
  invalid_transcript reset_failed : AudioError
  already_dispatched dispatch_unavailable dispatch_failed bridge_closed : AudioError

-- what `_validate_metadata` returns, less the constants
pub record Metadata : Type 0 where
  pub chunk_index : ℕ
  pub final : Bool
  pub stream_id : String

abbrev audio_fields : List String
audio_fields =
    "audio_protocol_version" ∷ "bits_per_sample" ∷ "channels" ∷ "chunk_index" ∷ "final"
    ∷ "sample_rate" ∷ "stream_id" ∷ []

abbrev frame_fields : List String
frame_fields = "ciphertext" ∷ "protocol_version" ∷ "sequence" ∷ "session_id" ∷ audio_fields

-- `set(frame) == _FRAME_FIELDS`
unfoldable pub has_frame_fields : Fields → Bool
has_frame_fields f =
    all (λ k. contains k frame_fields) (field_names f)
    && all (λ k. contains k (field_names f)) frame_fields

-- `value == n` does hold: Python finds `1.0` and `True` equal to 1
unfoldable pub equals_number : ℕ → Value → Bool
equals_number n (int i) = is_nat n i
equals_number n (float x) = elim x.whole [ none ↦ false | some i ↦ is_nat n i ]
equals_number n (bool b) = nat_eq n (if b then 1 else 0)
equals_number n _ = false

-- `_validate_stream_id`
unfoldable pub validate_stream_id : Value → Result AudioError String
validate_stream_id (str s) = if is_stream_id s then ok s else err invalid_stream_id
validate_stream_id _ = err invalid_stream_id

-- `_validate_chunk_index`
unfoldable pub validate_chunk_index : Value → Result AudioError ℕ
validate_chunk_index (int (pos n)) =
    if ltb n max_audio_chunks then ok n else err invalid_chunk_index
validate_chunk_index _ = err invalid_chunk_index

unfoldable pub validate_final : Value → Result AudioError Bool
validate_final (bool b) = ok b
validate_final _ = err invalid_final

-- `_validate_metadata`, on the values of the audio fields, which both callers have
unfoldable pub validate_metadata : Fields → Result AudioError Metadata
validate_metadata f = do
  require (equals_number audio_protocol_version (value_at "audio_protocol_version" f))
      unsupported_version
  stream_id ← validate_stream_id (value_at "stream_id" f)
  chunk_index ← validate_chunk_index (value_at "chunk_index" f)
  final ← validate_final (value_at "final" f)
  require (not (nat_eq chunk_index (max_audio_chunks - 1) && not final)) unfinished_at_limit
  require
      (equals_number audio_sample_rate (value_at "sample_rate" f)
        && equals_number audio_channels (value_at "channels" f)
        && equals_number audio_bits_per_sample (value_at "bits_per_sample" f))
      unsupported_format
  ok (record { chunk_index = chunk_index; final = final; stream_id = stream_id })

-- the metadata as the fields of a frame
unfoldable pub metadata_fields : Metadata → Fields
metadata_fields m = field "audio_protocol_version" (int (pos audio_protocol_version)) (
    field "bits_per_sample" (int (pos audio_bits_per_sample)) (
      field "channels" (int (pos audio_channels)) (
        field "chunk_index" (int (pos m.chunk_index)) (
          field "final" (bool m.final) (
            field "sample_rate" (int (pos audio_sample_rate))
              (field "stream_id" (str m.stream_id) end))))))

-- `_additional_data(metadata)`
unfoldable pub additional_data : Metadata → Bytes
additional_data m =
    audio_aad_prefix
    ++ canonical (
        ("audio_protocol_version", number audio_protocol_version)
        ∷ ("bits_per_sample", number audio_bits_per_sample)
        ∷ ("channels", number audio_channels)
        ∷ ("chunk_index", number m.chunk_index)
        ∷ ("final", truth m.final)
        ∷ ("sample_rate", number audio_sample_rate)
        ∷ ("stream_id", text m.stream_id)
        ∷ [])

-- the size test of `_validate_samples` and `_validate_decrypted_samples`
unfoldable pub is_chunk_size : ℕ → Bool
is_chunk_size n = between 1 max_audio_chunk_bytes n && nat_eq (n % audio_bytes_per_sample) 0
