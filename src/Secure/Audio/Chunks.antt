-- ===== src/Secure/Audio/Chunks.antt =====
-- One chunk of an audio stream, from the sender to the receiver.
use pipa_personal_assistant.Prelude.{
  ℕ, ◌+◌, ◌-◌, ◌*◌, ◌≤◌, ◌<◌, ltb, nat_eq, String, Bool, true, false, ◌&&◌, not, none, some, length,
  contains, ok, ◌≡◌, refl, arith, All, inl, inr, ◌⊎◌, length-append, eq_refl,
}
use pipa_personal_assistant.Prelude.Bytes.{Bytes, IsByte, codes}
use pipa_personal_assistant.Prelude.Text.{len, decimal}
use pipa_personal_assistant.Json.{dict, Fields, get_field, field_names}
use pipa_personal_assistant.Secure.Canonical.{quoted, scalar, entries, canonical}
use pipa_personal_assistant.Secure.Session.{max_additional_data_bytes, max_sequence, frame}
use pipa_personal_assistant.Secure.Session.Channel.Holding.{IsPeer}
use pipa_personal_assistant.Secure.Base64.Alphabet.{each_from, each_value}
use pipa_personal_assistant.Secure.Audio.Sender.{update, AudioSender, check_chunk}
use pipa_personal_assistant.Secure.Audio.Receiver.{AudioReceiver, check_stream, check_frame}
use pipa_personal_assistant.Secure.Audio.{
  max_audio_chunks, max_audio_chunk_bytes, is_stream_id, Metadata, has_frame_fields, equals_number,
  validate_stream_id, validate_chunk_index, validate_final, validate_metadata, metadata_fields,
  additional_data, is_chunk_size,
}

-- Metadata that `validate_metadata` lets pass.
pub record IsMetadata (m : Metadata) : Type 0 where
  pub id : is_stream_id m.stream_id ≡ true
  pub index : m.chunk_index < max_audio_chunks
  pub limit : nat_eq m.chunk_index (max_audio_chunks - 1) && not m.final ≡ false

validate-metadata_fields :
    (m : Metadata) → IsMetadata m → validate_metadata (metadata_fields m) ≡ ok m
unfolding validate_metadata metadata_fields get_field equals_number validate_stream_id
    validate_chunk_index validate_final
validate-metadata_fields m v = ground (arith, v.id, v.index, v.limit)

-- the frame of a chunk
abbrev pub audio_frame : String → ℕ → Bytes → Metadata → Fields
audio_frame id sequence ciphertext m = update (frame id sequence ciphertext) (metadata_fields m)

audio_frame-has_frame_fields :
    (id : String) (n : ℕ) (t : Bytes) (m : Metadata)
    → has_frame_fields (audio_frame id n t m) ≡ true
unfolding has_frame_fields field_names update frame metadata_fields contains
audio_frame-has_frame_fields id n t m = refl

validate-audio_frame :
    (id : String) (n : ℕ) (t : Bytes) (m : Metadata)
    → IsMetadata m
    → validate_metadata (audio_frame id n t m) ≡ ok m
unfolding validate_metadata metadata_fields get_field equals_number validate_stream_id
    validate_chunk_index validate_final update frame
validate-audio_frame id n t m v = ground (arith, v.id, v.index, v.limit)

length-codes : (s : String) → length (codes s) ≡ len s
unfolding len
length-codes String.[] = refl
length-codes (String.◌∷◌ a s) = omega (arith, length-codes s)

decimal_table : each_from (λ n. ltb (length (codes (decimal n))) 3) 0 64 ≡ true
unfolding each_from decimal
decimal_table = refl

length-codes-decimal : (n : ℕ) → n < max_audio_chunks → length (codes (decimal n)) ≤ 2
length-codes-decimal n h =
    ground (arith, each_value (λ n. ltb (length (codes (decimal n))) 3) n decimal_table h)

additional_data_bound :
    (n : ℕ) (final : Bool) (id : String)
    → n < max_audio_chunks
    → len id ≤ 64
    → length (additional_data (record { chunk_index = n; final = final; stream_id = id }))
      ≤ max_additional_data_bytes
unfolding additional_data canonical entries scalar quoted decimal
additional_data_bound n true id h l = omega (
  arith,
  length-codes id,
  length-codes-decimal n h,
  length-append (codes (decimal n)) _,
  length-append (codes id) _,
)
additional_data_bound n false id h l = omega (
  arith,
  length-codes id,
  length-codes-decimal n h,
  length-append (codes (decimal n)) _,
  length-append (codes id) _,
)

pub additional_data-bounded :
    (m : Metadata) → IsMetadata m → length (additional_data m) ≤ max_additional_data_bytes
unfolding is_stream_id
additional_data-bounded m v =
    additional_data_bound m.chunk_index m.final m.stream_id v.index (ground (arith, v.id))

-- Bytes that are a chunk.
pub record IsChunk (p : Bytes) : Type 0 where
  pub bytes : All IsByte p
  pub size : is_chunk_size (length p) ≡ true

pub chunk_bound : (p : Bytes) → IsChunk p → length p ≤ max_audio_chunk_bytes
unfolding is_chunk_size
chunk_bound p h = ground (arith, h.size)

-- The sender and the receiver are at the same place of one stream, over sessions that are peers.
pub record Meets (s : AudioSender) (r : AudioReceiver) : Type 0 where
  pub peer : IsPeer s.session r.session
  pub sender_open : s.session.closed ≡ false
  pub receiver_open : r.session.closed ≡ false
  pub sequence : s.session.send_sequence ≡ r.session.receive_sequence
  pub id : is_stream_id s.stream_id ≡ true
  pub stream : ((r.stream_id ≡ none) × (s.next_chunk ≡ 0)) ⊎ (r.stream_id ≡ some s.stream_id)
  pub next : r.next_chunk ≡ s.next_chunk
  pub amount : r.stream_bytes ≡ s.stream_bytes
  pub bound : s.stream_bytes ≤ max_audio_chunk_bytes * s.next_chunk
  pub sender_running : s.finished ≡ false
  pub receiver_running : r.finished ≡ false

-- There is room for a chunk, final or not.
pub record HasRoom (s : AudioSender) (final : Bool) : Type 0 where
  pub index : s.next_chunk < max_audio_chunks
  pub limit : nat_eq s.next_chunk (max_audio_chunks - 1) && not final ≡ false
  pub fits : s.session.send_sequence ≤ max_sequence

abbrev pub metadata_of : AudioSender → Bool → Metadata
metadata_of s final = record { chunk_index = s.next_chunk; final = final; stream_id = s.stream_id }

-- what the sender and the receiver are after the chunk
abbrev pub sent : Bytes → Bool → AudioSender → AudioSender
sent p final s = record s {
  session = record s.session { send_sequence = s.session.send_sequence + 1 };
  next_chunk = s.next_chunk + 1;
  stream_bytes = s.stream_bytes + length p;
  finished = final;
}

abbrev pub received : Bytes → Metadata → AudioReceiver → AudioReceiver
received p m r = record {
  session = record r.session { receive_sequence = r.session.receive_sequence + 1 };
  stream_id = some m.stream_id;
  next_chunk = r.next_chunk + 1;
  stream_bytes = r.stream_bytes + length p;
  finished = m.final;
}

pub room-IsMetadata :
    (s : AudioSender) (final : Bool)
    → is_stream_id s.stream_id ≡ true
    → HasRoom s final
    → IsMetadata (metadata_of s final)
room-IsMetadata s final id room = record { id = id; index = room.index; limit = room.limit }

pub chunk_checked :
    (p : Bytes) (final : Bool) (s : AudioSender) (r : AudioReceiver)
    → IsChunk p
    → Meets s r
    → HasRoom s final
    → check_chunk p final s ≡ ok (metadata_of s final)
unfolding check_chunk
chunk_checked p final s r chunk v room = ground (
  arith,
  chunk.size,
  chunk_bound p chunk,
  v.sender_running,
  v.bound,
  room.index,
  room.limit,
  validate-metadata_fields (metadata_of s final) (room-IsMetadata s final v.id room),
)

stream_checked :
    (final : Bool) (s : AudioSender) (r : AudioReceiver)
    → Meets s r
    → check_stream (metadata_of s final) r.stream_id ≡ ok tt
unfolding check_stream
stream_checked final s r v = elim v.stream [
  | inl (e, z) ↦ rw e (ground (arith, z))
  | inr e ↦ rw e (ground (arith, eq_refl s.stream_id))
]

pub frame_checked :
    (final : Bool) (s : AudioSender) (r : AudioReceiver) (n : ℕ) (t : Bytes)
    → Meets s r
    → HasRoom s final
    → check_frame (dict (audio_frame s.session.session_id n t (metadata_of s final))) r
      ≡ ok (metadata_of s final)
unfolding check_frame
frame_checked final s r n t v room =
    let m = metadata_of s final in
    rw
      (
        audio_frame-has_frame_fields s.session.session_id n t m,
        validate-audio_frame s.session.session_id n t m (room-IsMetadata s final v.id room),
      )
      (ground (arith, v.receiver_running, v.next, stream_checked final s r v))
