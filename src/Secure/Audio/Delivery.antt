-- ===== src/Secure/Audio/Delivery.antt =====
-- One chunk is sealed, carried and opened.
use pipa_personal_assistant.Prelude.{
  ◌+◌, ltb, Bool, false, length, ok, ◌≡◌, refl, sym, ap, arith, inr,
}
use pipa_personal_assistant.Prelude.Int.{pos}
use pipa_personal_assistant.Prelude.Bytes.{Bytes}
use pipa_personal_assistant.Json.{int, str, dict, Fields, get_field}
use pipa_personal_assistant.Secure.Crypto.{Crypto, IsSound}
use pipa_personal_assistant.Secure.Session.{
  frame, equals_version, check_seal, sealed, seal, open_frame,
}
use pipa_personal_assistant.Secure.Session.Opening.{IsNext, opened_iff}
use pipa_personal_assistant.Secure.Session.Channel.Holding.{aligned}
use pipa_personal_assistant.Secure.Base64.{encode}
use pipa_personal_assistant.Secure.Audio.Sender.{update, AudioSender, seal_chunk}
use pipa_personal_assistant.Secure.Audio.Receiver.{AudioReceiver, take_chunk, open_chunk}
use pipa_personal_assistant.Secure.Audio.{max_audio_stream_bytes, metadata_fields, additional_data}
use pipa_personal_assistant.Secure.Audio.Chunks.{
  audio_frame, additional_data-bounded, IsChunk, chunk_bound, Meets, HasRoom, metadata_of, sent,
  received, room-IsMetadata, chunk_checked, frame_checked,
}

module _ (c : Crypto) (sound : IsSound c) where
  -- the frame that carries the chunk
  abbrev pub carried : Bytes → Bool → AudioSender → Fields
  carried p final s =
      audio_frame s.session.session_id s.session.send_sequence
        (sealed c p (additional_data (metadata_of s final)) s.session) (metadata_of s final)

  carried-IsNext :
      (p : Bytes) (final : Bool) (s : AudioSender) (r : AudioReceiver)
      → IsChunk p
      → Meets s r
      → HasRoom s final
      → IsNext c (carried p final s) (additional_data (metadata_of s final)) r.session p
  unfolding update metadata_fields frame get_field equals_version sealed
  carried-IsNext p final s r chunk v room = record {
    version = refl;
    session = ap str (sym v.peer.session);
    position = ap (λ n. int (pos n)) v.sequence;
    ciphertext =
        ap (λ (x : Bytes). str (encode x))
          (aligned c (additional_data (metadata_of s final)) s.session r.session v.sequence v.peer
            p);
    bytes = chunk.bytes;
    short = omega (arith, chunk_bound p chunk);
    bounded = additional_data-bounded (metadata_of s final) (room-IsMetadata s final v.id room);
    fits = omega (arith, room.fits, v.sequence);
  }

  may_seal :
      (p : Bytes) (final : Bool) (s : AudioSender) (r : AudioReceiver)
      → IsChunk p
      → Meets s r
      → HasRoom s final
      → check_seal p (additional_data (metadata_of s final)) s.session ≡ ok tt
  unfolding check_seal
  may_seal p final s r chunk v room = ground (
    arith,
    v.sender_open,
    chunk_bound p chunk,
    additional_data-bounded (metadata_of s final) (room-IsMetadata s final v.id room),
    room.fits,
  )

  pub sealed_as :
      (p : Bytes) (final : Bool) (s : AudioSender) (r : AudioReceiver)
      → IsChunk p
      → Meets s r
      → HasRoom s final
      → seal_chunk c p final s ≡ (ok (carried p final s), sent p final s)
  unfolding seal_chunk seal
  sealed_as p final s r chunk v room =
      rw
        (
          chunk_checked p final s r chunk v room,
          may_seal p final s r chunk v room,
          seal_chunk,
          seal,
        )
        refl

  pub opened_as :
      (p : Bytes) (final : Bool) (s : AudioSender) (r : AudioReceiver)
      → IsChunk p
      → Meets s r
      → HasRoom s final
      → open_chunk c (dict (carried p final s)) r ≡ (ok p, received p (metadata_of s final) r)
  unfolding open_chunk take_chunk open_frame
  opened_as p final s r chunk v room =
      let m = metadata_of s final in
      let checked =
        frame_checked final s r s.session.send_sequence (sealed c p (additional_data m) s.session) v
          room in
      let opens =
        (opened_iff c sound (carried p final s) (additional_data m) r.session p).1
          (v.receiver_open, carried-IsNext p final s r chunk v room) in
      let small : ltb max_audio_stream_bytes (r.stream_bytes + length p) ≡ false =
        ground (arith, v.amount, v.bound, room.index, chunk_bound p chunk) in
      rw (checked, opens, chunk.size, small, open_chunk, open_frame, take_chunk) refl

  pub sent-Meets :
      (p : Bytes) (s : AudioSender) (r : AudioReceiver)
      → IsChunk p
      → Meets s r
      → Meets (sent p false s) (received p (metadata_of s false) r)
  sent-Meets p s r chunk v = record {
    peer = record { session = v.peer.session; key = v.peer.key; prefix = v.peer.prefix };
    sender_open = v.sender_open;
    receiver_open = v.receiver_open;
    sequence = omega (arith, v.sequence);
    id = v.id;
    stream = inr refl;
    next = omega (arith, v.next);
    amount = omega (arith, v.amount);
    bound = omega (arith, v.bound, chunk_bound p chunk);
    sender_running = refl;
    receiver_running = refl;
  }
