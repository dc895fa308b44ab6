-- ===== src/Secure/Capture/Bridge/Spoken.antt =====
-- A spoken command, from the chunks that are recorded to the dispatcher.
use mathlib.Core.List.{map}
use pipa_personal_assistant.Prelude.{
  ◌+◌, ◌≤◌, String, true, false, none, some, List, [], ◌∷◌, length, ok, ◌≡◌, refl, ap, ◌∙◌, arith,
  All, Result-cases, inl, inr,
}
use pipa_personal_assistant.Prelude.Bytes.{Bytes}
use pipa_personal_assistant.Prelude.Text.{strip}
use pipa_personal_assistant.Json.{Value, null, str, dict, Fields}
use pipa_personal_assistant.TextPolicy.{validate_bounded_text}
use pipa_personal_assistant.Secure.Crypto.{Crypto, IsSound}
use pipa_personal_assistant.Secure.Session.{SecureSession, max_sequence}
use pipa_personal_assistant.Secure.Session.Channel.Holding.{IsPeer}
use pipa_personal_assistant.Secure.Audio.{max_audio_chunks, is_stream_id, Metadata}
use pipa_personal_assistant.Secure.Audio.Sender.{AudioSender, new_sender}
use pipa_personal_assistant.Secure.Audio.Receiver.{
  AudioReceiver, new_receiver, check_frame, open_chunk, stream_duration_ms,
}
use pipa_personal_assistant.Secure.Audio.Chunks.{IsChunk}
use pipa_personal_assistant.Secure.Audio.Stream.{seal_stream, open_stream, total, stream_arrives}
use pipa_personal_assistant.Secure.Capture.{
  codec_ready, listening, Readiness, is_ready, begin_listening, begin_draining, finish_draining,
  drain, is_listening,
}
use pipa_personal_assistant.Secure.Capture.Consumer
use pipa_personal_assistant.Secure.Capture.Consumer.{Summary, consumed, give_chunk}
use pipa_personal_assistant.Secure.Capture.Transcriber
use pipa_personal_assistant.Secure.Capture.Transcriber.{
  Effect, heard, dispatched, Callbacks, Hearing, consume_chunk, take_result, finalized,
}
use pipa_personal_assistant.Secure.Capture.Bridge.{
  CommandBridge, given, begin_capture, consume_frame, finalize, dispatch_finalized, dispatch, Call,
  begins, consumes, step, run,
}

-- A bridge that was just made over the session, with a codec that is ready.
abbrev pub ready_bridge : SecureSession → CommandBridge
ready_bridge b = record {
  transcriber = record {
    consumer = record {
      receiver = new_receiver b;
      gate = codec_ready;
      closed = false;
      finished = false;
    };
    hearing = record { transcript = none; given = [] };
    provider_closed = false;
    finalized = false;
  };
  attached = true;
  done = false;
}

-- A bridge over the receiver whose gate listens, before the final chunk.
abbrev pub hearing : AudioReceiver → List Effect → CommandBridge
hearing r es = record {
  transcriber = record {
    consumer = record { receiver = r; gate = listening; closed = false; finished = false };
    hearing = record { transcript = none; given = es };
    provider_closed = false;
    finalized = false;
  };
  attached = true;
  done = false;
}

-- The bridge after the final chunk.
abbrev has_heard : AudioReceiver → List Effect → String → CommandBridge
has_heard r es s = record {
  transcriber = record {
    consumer = record { receiver = r; gate = listening; closed = false; finished = true };
    hearing = record { transcript = some s; given = es };
    provider_closed = false;
    finalized = false;
  };
  attached = true;
  done = false;
}

-- The provider answers a final chunk, and no other, and the dispatcher answers the transcript.
pub record Answers (cb : Callbacks) (said : String) (v : Value) : Type 0 where
  pub silent : (p : Bytes) (es : List Effect) → cb.provider (heard p false ∷ es) ≡ some null
  pub spoken : (p : Bytes) (es : List Effect) → cb.provider (heard p true ∷ es) ≡ some (str said)
  pub valid : validate_bounded_text 4000 false (str said) ≡ ok said
  pub answered : (es : List Effect) → cb.dispatch (dispatched (strip said) ∷ es) ≡ some v

-- What the provider is given for the chunks, each once and in order, only the last one as final.
abbrev pub heard_log : List Bytes → List Effect → List Effect
heard_log [] es = es
heard_log (p ∷ []) es = heard p true ∷ es
heard_log (p ∷ q ∷ ps) es = heard_log (q ∷ ps) (heard p false ∷ es)

module _ (c : Crypto) where
  checked_running :
      (f : Value) (r : AudioReceiver) {m : Metadata} → check_frame f r ≡ ok m → r.finished ≡ false
  unfolding check_frame
  checked_running (dict f) r h = ground arith
  checked_running f r h = ground arith

  -- A receiver that opens a chunk has not finished its stream.
  opened_running :
      (f : Value) (r : AudioReceiver) {p : Bytes} → (open_chunk c f r).0 ≡ ok p → r.finished ≡ false
  unfolding open_chunk
  opened_running f r h = elim (Result-cases (check_frame f r)) [
    | inl (m, e) ↦ checked_running f r e
    | inr (x, e) ↦ absurd (ground (arith, e))
  ]

  module _ (cb : Callbacks) (said : String) (v : Value) (a : Answers cb said v) where
    consumed_chunk :
        (f : Fields) (r r' : AudioReceiver) (es : List Effect) (p : Bytes)
        → open_chunk c (dict f) r ≡ (ok p, r')
        → r'.finished ≡ false
        → step c cb (hearing r es) (consumes (dict f)) ≡ hearing r' (heard p false ∷ es)
    unfolding step consume_frame Transcriber.consume_frame Consumer.consume_frame give_chunk
        consumed consume_chunk take_result is_listening
    consumed_chunk f r r' es p opens more = simp (opens, more, a.silent p es) refl

    taken :
        (h : Hearing)
        → take_result true h (some (str said))
          ≡ (ok tt, record h { transcript = some (strip said) })
    unfolding take_result
    taken h = rw (a.valid, take_result) refl

    consumed_final :
        (f : Fields) (r r' : AudioReceiver) (es : List Effect) (p : Bytes)
        → open_chunk c (dict f) r ≡ (ok p, r')
        → r'.finished ≡ true
        → step c cb (hearing r es) (consumes (dict f))
          ≡ has_heard r' (heard p true ∷ es) (strip said)
    unfolding step consume_frame Transcriber.consume_frame Consumer.consume_frame give_chunk
        consumed consume_chunk is_listening
    consumed_final f r r' es p opens ends =
        simp
          (
            opens,
            ends,
            a.spoken p es,
            taken (record { transcript = none; given = heard p true ∷ es }),
          )
          refl

    summary_of : AudioReceiver → Summary
    summary_of r = record {
      stream_bytes = r.stream_bytes;
      stream_duration_ms = stream_duration_ms r;
    }

    finalized_heard :
        (r : AudioReceiver) (es : List Effect)
        → r.finished ≡ true
        → (finalize cb (has_heard r es (strip said))).0 ≡ ok (summary_of r, v)
    unfolding finalize dispatch_finalized dispatch Transcriber.finalize Transcriber.transcript
        Consumer.finalize drain begin_draining finish_draining summary_of
    finalized_heard r es ends = simp (ends, a.answered es) refl

    hear : List Fields → List Call
    hear fs = map (λ f. consumes (dict f)) fs

    -- The bridge hears the frames that the receiver opens.
    heard_all :
        (fs : List Fields) (f : Fields) (r : AudioReceiver) (es : List Effect) (p : Bytes)
        (ps : List Bytes)
        → (open_stream c (f ∷ fs) r).0 ≡ map ok (p ∷ ps)
        → (open_stream c (f ∷ fs) r).1.finished ≡ true
        → run c cb (hearing r es) (hear (f ∷ fs))
          ≡ has_heard (open_stream c (f ∷ fs) r).1 (heard_log (p ∷ ps) es) (strip said)
    unfolding run hear open_stream
    heard_all [] f r es p (q ∷ ps) opens ends = cc
    heard_all [] f r es p [] opens ends =
        let one : open_chunk c (dict f) r ≡ (ok p, (open_chunk c (dict f) r).1) = cc in
        consumed_final f r (open_chunk c (dict f) r).1 es p one ends
    heard_all (g ∷ fs) f r es p [] opens ends = cc
    heard_all (g ∷ fs) f r es p (q ∷ ps) opens ends =
        let r' = (open_chunk c (dict f) r).1 in
        let one : open_chunk c (dict f) r ≡ (ok p, r') = cc in
        let next : (open_chunk c (dict g) r').0 ≡ ok q = cc in
        ap (λ b. run c cb b (hear (g ∷ fs)))
          (consumed_chunk f r r' es p one (opened_running (dict g) r' next))
        ∙ heard_all fs g r' (heard p false ∷ es) q ps (cc) ends

    heard_stream :
        (fs : List Fields) (r : AudioReceiver) (p : Bytes) (ps : List Bytes)
        → (open_stream c fs r).0 ≡ map ok (p ∷ ps)
        → (open_stream c fs r).1.finished ≡ true
        → run c cb (hearing r []) (hear fs)
          ≡ has_heard (open_stream c fs r).1 (heard_log (p ∷ ps) []) (strip said)
    unfolding open_stream
    heard_stream [] r p ps opens ends = cc
    heard_stream (f ∷ fs) r p ps opens ends = heard_all fs f r [] p ps opens ends

    begun :
        (b : SecureSession) (w : Readiness)
        → is_ready w ≡ true
        → step c cb (ready_bridge b) (begins w) ≡ hearing (new_receiver b) []
    unfolding step begin_capture Transcriber.begin_capture Consumer.begin_capture begin_listening
    begun b w e = simp e refl

    module _ (sound : IsSound c) where
      -- A sender that is made over a session whose peer a bridge with a ready codec receives from,
      -- both open and at the same sequence, seals any stream of one to 64 chunks, if each is of bytes
      -- and of a size that the source allows and the sequence numbers suffice. Once a capture is asked
      -- for with all conditions met and the bridge has been given the frames, its provider was given
      -- exactly the chunks, in order, only the last one as final. If it answers that one by a valid
      -- transcript and the others by nothing, finalize returns the number of bytes of all chunks and
      -- what the dispatcher answers to the stripped transcript.
      pub spoken_dispatched :
          (a b : SecureSession) (id : String) (p : Bytes) (ps : List Bytes) (w : Readiness)
          → IsPeer a b
          → a.closed ≡ false
          → b.closed ≡ false
          → a.send_sequence ≡ b.receive_sequence
          → is_stream_id id ≡ true
          → All IsChunk (p ∷ ps)
          → length (p ∷ ps) ≤ max_audio_chunks
          → a.send_sequence + length ps ≤ max_sequence
          → is_ready w ≡ true
          → (s : AudioSender) × (fs : List Fields) × (summary : Summary) × (new_sender a (str id)
              ≡ ok s)
            × (seal_stream c (p ∷ ps) s ≡ ok fs)
            × (given (run c cb (ready_bridge b) (begins w ∷ map (λ f. consumes (dict f)) fs))
                ≡ heard_log (p ∷ ps) [])
            × ((finalize cb
                  (run c cb (ready_bridge b) (begins w ∷ map (λ f. consumes (dict f)) fs))).0
                ≡ ok (summary, v))
            × (summary.stream_bytes ≡ total (p ∷ ps))
      unfolding run hear summary_of
      spoken_dispatched a b id p ps w peer sending receiving same named chunks few fits allowed =
          let (s, made, fs, sealed_all, opened_all, ends, sums) =
            stream_arrives c sound a b id p ps peer sending receiving same named chunks few fits in
          let r = (open_stream c fs (new_receiver b)).1 in
          let all_heard =
            ap (λ k. run c cb k (hear fs)) (begun b w allowed)
            ∙ heard_stream fs (new_receiver b) p ps opened_all ends in
          (
            s,
            fs,
            summary_of r,
            made,
            sealed_all,
            ap given all_heard,
            ap (λ k. (finalize cb k).0) all_heard ∙ finalized_heard r (heard_log (p ∷ ps) []) ends,
            sums,
          )
