-- ===== src/Secure/Audio/Stream.antt =====
-- A stream of audio chunks, from the sender to the receiver.
use mathlib.Core.List.{map}
use pipa_personal_assistant.Prelude.{
  ℕ, ◌+◌, ◌≤◌, String, true, false, List, [], ◌∷◌, length, Result, ok, ◌>>=◌, ◌≡◌, refl, arith, All,
  inl,
}
use pipa_personal_assistant.Prelude.Bytes.{Bytes}
use pipa_personal_assistant.Json.{str, dict, Fields}
use pipa_personal_assistant.Secure.Crypto.{Crypto, IsSound}
use pipa_personal_assistant.Secure.Session.{max_sequence, SecureSession}
use pipa_personal_assistant.Secure.Session.Channel.Holding.{IsPeer}
use pipa_personal_assistant.Secure.Audio.Sender.{AudioSender, seal_chunk, new_sender}
use pipa_personal_assistant.Secure.Audio.Receiver.{AudioReceiver, open_chunk, new_receiver}
use pipa_personal_assistant.Secure.Audio.{
  max_audio_chunks, is_stream_id, AudioError, validate_stream_id,
}
use pipa_personal_assistant.Secure.Audio.Chunks.{
  IsChunk, Meets, HasRoom, metadata_of, sent, received,
}
use pipa_personal_assistant.Secure.Audio.Delivery.{carried, sealed_as, opened_as, sent-Meets}

abbrev pub total : List Bytes → ℕ
total [] = 0
total (p ∷ ps) = length p + total ps

module _ (c : Crypto) where
  -- The chunks go out one after the other, the last one as the final one.
  unfoldable pub seal_stream : List Bytes → AudioSender → Result AudioError (List Fields)
  seal_stream [] s = ok []
  seal_stream (p ∷ []) s = (seal_chunk c p true s).0 >>= λ f. ok (f ∷ [])
  seal_stream (p ∷ q ∷ ps) s =
      let (f, s') = seal_chunk c p false s in
      let rest = seal_stream (q ∷ ps) s' in f >>= λ g. rest >>= λ gs. ok (g ∷ gs)

  unfoldable pub open_stream :
      List Fields → AudioReceiver → List (Result AudioError Bytes) × AudioReceiver
  open_stream [] r = ([], r)
  open_stream (f ∷ fs) r =
      let (o, r') = open_chunk c (dict f) r in let rest = open_stream fs r' in (o ∷ rest.0, rest.1)

module _ (c : Crypto) (sound : IsSound c) where
  -- The frames carry the chunks to the receiver.
  abbrev pub Carries : List Bytes → AudioSender → AudioReceiver → List Fields → Type 0
  Carries ps s r fs =
      (seal_stream c ps s ≡ ok fs)
      × ((open_stream c fs r).0 ≡ map ok ps)
      × ((open_stream c fs r).1.finished ≡ true)
      × ((open_stream c fs r).1.stream_bytes ≡ r.stream_bytes + total ps)

  carries :
      (p : Bytes) (ps : List Bytes) (s : AudioSender) (r : AudioReceiver)
      → Meets s r
      → All IsChunk (p ∷ ps)
      → s.next_chunk + length (p ∷ ps) ≤ max_audio_chunks
      → s.session.send_sequence + length ps ≤ max_sequence
      → (fs : List Fields) × Carries (p ∷ ps) s r fs
  unfolding seal_stream open_stream
  carries p [] s r v chunks few fits =
      let room : HasRoom s true = record {
        index = omega arith;
        limit = ground arith;
        fits = omega arith;
      } in
      let seals = sealed_as c sound p true s r chunks.0 v room in
      let opens = opened_as c sound p true s r chunks.0 v room in
      (
        carried c sound p true s ∷ [],
        rw (seals, opens, seal_stream, open_stream) (refl, refl, refl, omega arith),
      )
  carries p (q ∷ ps) s r v chunks few fits =
      let room : HasRoom s false = record {
        index = omega arith;
        limit = ground arith;
        fits = omega arith;
      } in
      let seals = sealed_as c sound p false s r chunks.0 v room in
      let opens = opened_as c sound p false s r chunks.0 v room in
      let (fs, (sealed_rest, opened_rest, ends, sums)) =
        carries q ps (sent p false s) (received p (metadata_of s false) r)
          (sent-Meets c sound p s r chunks.0 v) chunks.1 (omega arith) (omega arith) in
      (
        carried c sound p false s ∷ fs,
        rw (seals, opens, sealed_rest, opened_rest, seal_stream, open_stream)
            (refl, refl, ends, omega (arith, sums)),
      )

  -- the two ends as they are made
  begins :
      (a b : SecureSession) (id : String)
      → IsPeer a b
      → a.closed ≡ false
      → b.closed ≡ false
      → a.send_sequence ≡ b.receive_sequence
      → is_stream_id id ≡ true
      → Meets
          (record {
            session = a;
            stream_id = id;
            next_chunk = 0;
            stream_bytes = 0;
            finished = false;
          })
          (new_receiver b)
  unfolding new_receiver
  begins a b id peer sending receiving same named = record {
    peer = peer;
    sender_open = sending;
    receiver_open = receiving;
    sequence = same;
    id = named;
    stream = inl (refl, refl);
    next = refl;
    amount = refl;
    bound = omega arith;
    sender_running = refl;
    receiver_running = refl;
  }

  made_sender :
      (a : SecureSession) (id : String)
      → is_stream_id id ≡ true
      → new_sender a (str id)
        ≡ ok (record {
          session = a;
          stream_id = id;
          next_chunk = 0;
          stream_bytes = 0;
          finished = false;
        })
  unfolding new_sender validate_stream_id
  made_sender a id named = rw (named, new_sender, validate_stream_id) refl

  -- A sender and a receiver that are made over peer sessions, open and at the same sequence, carry
  -- any stream of one to 64 chunks, each of bytes and of a size that the source allows, if the
  -- sequence numbers suffice: every chunk is sealed, the receiver opens the frames to the chunks, in
  -- their order, and then knows the stream as complete, with the bytes of all chunks counted.
  pub stream_arrives :
      (a b : SecureSession) (id : String) (p : Bytes) (ps : List Bytes)
      → IsPeer a b
      → a.closed ≡ false
      → b.closed ≡ false
      → a.send_sequence ≡ b.receive_sequence
      → is_stream_id id ≡ true
      → All IsChunk (p ∷ ps)
      → length (p ∷ ps) ≤ max_audio_chunks
      → a.send_sequence + length ps ≤ max_sequence
      → (s : AudioSender) × (new_sender a (str id) ≡ ok s)
        × (fs : List Fields) × (seal_stream c (p ∷ ps) s ≡ ok fs)
        × ((open_stream c fs (new_receiver b)).0 ≡ map ok (p ∷ ps))
        × ((open_stream c fs (new_receiver b)).1.finished ≡ true)
        × ((open_stream c fs (new_receiver b)).1.stream_bytes ≡ total (p ∷ ps))
  unfolding new_receiver
  stream_arrives a b id p ps peer sending receiving same named chunks few fits =
      let s : AudioSender = record {
        session = a;
        stream_id = id;
        next_chunk = 0;
        stream_bytes = 0;
        finished = false;
      } in
      let (fs, (sealed_all, opened_all, ends, sums)) =
        carries p ps s (new_receiver b) (begins a b id peer sending receiving same named) chunks
          (omega arith) fits in
      (s, made_sender a id named, fs, sealed_all, opened_all, ends, omega (arith, sums))
