-- ===== src/Secure/Capture/Transcriber/Counts.antt =====
-- What a transcriber gives to the callbacks, and when its gate listens.
use pipa_personal_assistant.Prelude.{
  ℕ, suc, Bool, true, false, ◌&&◌, ◌||◌, not, Option, none, some, List, [], ◌∷◌, Result, ok, err,
  ◌≡◌, refl, ap, ◌∙◌, arith, Bool-cases, Option-cases, inl, inr,
}
use pipa_personal_assistant.Prelude.Bytes.{Bytes}
use pipa_personal_assistant.Json.{Value, null}
use pipa_personal_assistant.Secure.Crypto.{Crypto}
use pipa_personal_assistant.Secure.Audio.{AudioError}
use pipa_personal_assistant.Secure.Capture.{Readiness, is_ready, is_listening}
use pipa_personal_assistant.Secure.Capture.Consumer
use pipa_personal_assistant.Secure.Capture.Consumer.{AudioConsumer, Summary}
use pipa_personal_assistant.Secure.Capture.Consumer.Closing
use pipa_personal_assistant.Secure.Capture.Consumer.Closing.{
  IsGuarded, close-idle, cancel-idle, cancel-closed, finalize-idle, finalize-closed,
  begin_capture-ready, begin_capture-closed, consume_frame-IsGuarded, consume_frame-idle,
  consume_frame-keeps,
}
use pipa_personal_assistant.Secure.Capture.Transcriber.{
  Effect, heard, was_reset, dispatched, Callbacks, Hearing, AudioTranscriber, is_closed,
  take_result, begin_capture, consume_chunk, consume_frame, reset, close, finalized, finalize,
  cancel,
}

-- how many chunks the provider was given
abbrev pub chunks_heard : List Effect → ℕ
chunks_heard [] = 0
chunks_heard (heard p final ∷ es) = suc (chunks_heard es)
chunks_heard (was_reset ∷ es) = chunks_heard es
chunks_heard (dispatched s ∷ es) = chunks_heard es

-- how many transcripts the dispatcher was given
abbrev pub dispatches : List Effect → ℕ
dispatches [] = 0
dispatches (heard p final ∷ es) = dispatches es
dispatches (was_reset ∷ es) = dispatches es
dispatches (dispatched s ∷ es) = suc (dispatches es)

-- Neither a chunk nor a transcript was given in between.
abbrev pub SameCounts : List Effect → List Effect → Type 0
SameCounts xs ys = (chunks_heard ys ≡ chunks_heard xs) × (dispatches ys ≡ dispatches xs)

-- The consumer is closed before its provider is dropped, and does not listen when it is closed.
pub record IsSafe (t : AudioTranscriber) : Type 0 where
  pub guarded : IsGuarded t.consumer
  pub provider : t.provider_closed && not t.consumer.closed ≡ false

-- A transcriber that does not listen, and has given nothing since `t`.
pub record IsIdle (t t' : AudioTranscriber) : Type 0 where
  pub safe : IsSafe t'
  pub idle : is_listening t'.consumer.gate ≡ false
  pub counts : SameCounts t.hearing.given t'.hearing.given

take_result-given :
    (final : Bool) (h : Hearing) (o : Option Value) → (take_result final h o).1.given ≡ h.given
unfolding take_result
take_result-given final h none = refl
take_result-given final h (some null) = refl
take_result-given false h (some v) = ground arith
take_result-given true h (some v) = ground arith

module _ (cb : Callbacks) where
  consume_chunk-dispatches :
      (closed : Bool) (p : Bytes) (final : Bool) (h : Hearing)
      → dispatches (consume_chunk cb closed p final h).1.given ≡ dispatches h.given
  unfolding consume_chunk
  consume_chunk-dispatches closed p final h = elim (Option-cases h.transcript) [
    | inr (s, e) ↦ rw (e, consume_chunk) refl
    | inl e ↦ elim (Bool-cases closed) [
      | inl f ↦ rw (e, f, consume_chunk) refl
      | inr f ↦
          let given = heard p final ∷ h.given in
          simp (e, f, consume_chunk)
            (ap dispatches (
              take_result-given final (record { transcript = none; given = given })
                (cb.provider given)))
    ]
  ]

  pub consume_frame-dispatches :
      (c : Crypto) (v : Value) (t : AudioTranscriber)
      → dispatches (consume_frame cb c v t).1.hearing.given ≡ dispatches t.hearing.given
  unfolding consume_frame
  consume_frame-dispatches c v t =
      let kept =
        consume_frame-keeps (consume_chunk cb t.provider_closed)
          (λ h. dispatches h.given ≡ dispatches t.hearing.given)
          (λ p final h e. consume_chunk-dispatches t.provider_closed p final h ∙ e) c v t.consumer
          t.hearing refl in
      ground (arith, kept)

  pub consume_frame-IsSafe :
      (c : Crypto) (v : Value) (t : AudioTranscriber) → IsSafe t → IsSafe (consume_frame cb c v t).1
  unfolding consume_frame
  consume_frame-IsSafe c v t safe = elim (Bool-cases (is_closed t)) [
    | inl e ↦ simp (e, consume_frame) safe
    | inr e ↦
        let guarded =
          consume_frame-IsGuarded (consume_chunk cb t.provider_closed) c v t.consumer t.hearing
            safe.guarded in
        let running : t.provider_closed ≡ false = ground (arith, e) in
        simp (e, consume_frame) (record { guarded = guarded; provider = ground (arith, running) })
  ]

  pub consume_frame-IsIdle :
      (c : Crypto) (v : Value) (t : AudioTranscriber)
      → IsSafe t
      → is_listening t.consumer.gate ≡ false
      → IsIdle t (consume_frame cb c v t).1
  consume_frame-IsIdle c v t safe idle =
      let held =
        consume_frame-idle (consume_chunk cb t.provider_closed) c v t.consumer t.hearing
          safe.guarded idle in
      record {
        safe = consume_frame-IsSafe c v t safe;
        idle = unfold consume_frame in ground (arith, held, idle);
        counts = (unfold consume_frame in ground (arith, held), consume_frame-dispatches c v t);
      }

  reset-counts : (h : Hearing) → SameCounts h.given (reset cb h).1.given
  unfolding reset
  reset-counts h = elim (Option-cases cb.reset_provider) [
    | inl e ↦ rw (e, reset) (refl, refl)
    | inr (f, e) ↦ rw (e, reset) (refl, refl)
  ]

  pub close-closed : (t : AudioTranscriber) → IsSafe t → (close cb t).consumer.closed ≡ true
  unfolding close
  close-closed t safe = ground (arith, safe.provider, Closing.close-closed t.consumer)

  pub close-IsIdle : (t : AudioTranscriber) → IsSafe t → IsIdle t (close cb t)
  close-IsIdle t safe =
      let shut = close-closed t safe in
      let idle : is_listening (close cb t).consumer.gate ≡ false =
        unfold close in
        ground (arith, close-idle t.consumer safe.guarded, safe.guarded, safe.provider) in
      record {
        safe = record { guarded = ground (arith, idle); provider = ground (arith, shut) };
        idle = idle;
        counts = unfold close in ground (arith, reset-counts t.hearing);
      }

  finalized-IsIdle :
      (t : AudioTranscriber) (o : Result AudioError Summary × AudioConsumer)
      → is_listening o.1.gate ≡ false
      → t.provider_closed && not o.1.closed ≡ false
      → IsIdle t (finalized cb t o).1
  finalized-IsIdle t (err e, k) idle provider = record {
    safe = record { guarded = ground (arith, idle); provider = provider };
    idle = idle;
    counts = (refl, refl);
  }
  finalized-IsIdle t (ok summary, k) idle provider = elim (Option-cases t.hearing.transcript) [
    | inl e ↦
        let u : AudioTranscriber = record t { consumer = k } in
        let shut =
          close-IsIdle u (record { guarded = ground (arith, idle); provider = provider }) in
        simp (e, finalized) (record { safe = shut.safe; idle = shut.idle; counts = shut.counts })
    | inr (s, e) ↦
        simp (e, finalized)
          (record {
            safe = record { guarded = ground (arith, idle); provider = provider };
            idle = idle;
            counts = (refl, refl);
          })
  ]

  pub finalize-IsIdle : (t : AudioTranscriber) → IsSafe t → IsIdle t (finalize cb t).1
  unfolding finalize
  finalize-IsIdle t safe =
      finalized-IsIdle t (Consumer.finalize t.consumer) (finalize-idle t.consumer safe.guarded)
        (ground (arith, safe.provider, finalize-closed t.consumer))

  pub cancel-IsIdle : (t : AudioTranscriber) → IsSafe t → IsIdle t (cancel cb t).1
  unfolding cancel
  cancel-IsIdle t safe = elim (Bool-cases (is_closed t)) [
    | inl e ↦
        let shut : t.consumer.closed ≡ true = ground (arith, e, safe.provider) in
        simp (e, cancel)
          (record { safe = safe; idle = ground (arith, shut, safe.guarded); counts = (refl, refl) })
    | inr e ↦
        let k = Consumer.cancel t.consumer in
        let h = (reset cb t.hearing).1 in
        let idle = cancel-idle t.consumer safe.guarded in
        let running : t.provider_closed ≡ false = ground (arith, e) in
        let same = reset-counts t.hearing in
        elim (Bool-cases (reset cb t.hearing).0) [
          | inl f ↦
              simp (e, f, cancel)
                (record {
                  safe = record {
                    guarded = ground (arith, idle);
                    provider = ground (arith, running);
                  };
                  idle = idle;
                  counts = same;
                })
          | inr f ↦
              let u : AudioTranscriber = record t { consumer = k; hearing = h } in
              let shut =
                close-IsIdle u
                  (record { guarded = ground (arith, idle); provider = ground (arith, running) }) in
              simp (e, f, cancel)
                (record {
                  safe = shut.safe;
                  idle = shut.idle;
                  counts = (shut.counts.0 ∙ same.0, shut.counts.1 ∙ same.1);
                })
        ]
  ]

pub begin_capture-IsSafe :
    (a : Readiness) (t : AudioTranscriber)
    → IsSafe t
    → is_closed t ≡ false
    → IsSafe (begin_capture a t).1
unfolding begin_capture
begin_capture-IsSafe a t safe running =
    let same = begin_capture-closed a t.consumer in
    record { guarded = ground (arith, running, same); provider = ground (arith, running) }

pub begin_capture-listening :
    (a : Readiness) (t : AudioTranscriber)
    → IsSafe t
    → is_listening (begin_capture a t).1.consumer.gate
        && not (is_listening t.consumer.gate || is_ready a)
      ≡ false
unfolding begin_capture
begin_capture-listening a t safe = begin_capture-ready a t.consumer safe.guarded
