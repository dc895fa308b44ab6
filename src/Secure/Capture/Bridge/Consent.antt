-- ===== src/Secure/Capture/Bridge/Consent.antt =====
-- What a bridge gives to its callbacks, over any calls of it and its gate.
use pipa_personal_assistant.Prelude.{
  ◌≤◌, Bool, true, false, ◌||◌, List, [], ◌∷◌, ◌≡◌, refl, ap, ◌∙◌, arith, Bool-cases, inl, inr, ◌⊎◌,
}
use pipa_personal_assistant.Json.{Value}
use pipa_personal_assistant.Secure.Crypto.{Crypto}
use pipa_personal_assistant.Secure.Capture.{
  Gate, disabled, codec_ready, listening, draining, error, Readiness, is_ready, mark_codec_ready,
  is_listening,
}
use pipa_personal_assistant.Secure.Capture.Transcriber
use pipa_personal_assistant.Secure.Capture.Transcriber.{
  Effect, dispatched, Callbacks, AudioTranscriber, is_closed,
}
use pipa_personal_assistant.Secure.Capture.Transcriber.Counts.{
  chunks_heard, dispatches, consume_frame-dispatches, consume_frame-IsSafe, consume_frame-IsIdle,
  begin_capture-IsSafe, begin_capture-listening,
}
use pipa_personal_assistant.Secure.Capture.Bridge.{
  CommandBridge, given, is_detached, begin_capture, consume_frame, mark_ready, Call, marks, begins,
  consumes, finalizes, cancels, closes, step, run,
}
use pipa_personal_assistant.Secure.Capture.Bridge.Ending.{
  is_capturing, Inv, Ends, closed-Ends, finalize-Ends, cancel-Ends,
}

-- Whether the calls have asked for a capture with all conditions met, and not ended it since.
abbrev pub granted_after : Bool → Call → Bool
granted_after g (marks initialized) = g
granted_after g (begins a) = g || is_ready a
granted_after g (consumes v) = g
granted_after g finalizes = false
granted_after g cancels = false
granted_after g closes = false

abbrev pub granted : Bool → List Call → Bool
granted g [] = g
granted g (x ∷ xs) = granted (granted_after g x) xs

mark_listening :
    (initialized : Bool) (g : Gate)
    → is_listening (mark_codec_ready initialized g).1 ≡ is_listening g
unfolding mark_codec_ready is_listening
mark_listening initialized disabled = ground arith
mark_listening initialized codec_ready = refl
mark_listening initialized listening = refl
mark_listening initialized draining = refl
mark_listening initialized error = ground arith

-- The invariant after a step, and a chunk was given only under a grant.
abbrev Steps : CommandBridge → Bool → CommandBridge → Bool → Type 0
Steps b g b' g' = Inv b' g' × ((chunks_heard (given b') ≡ chunks_heard (given b)) ⊎ (g ≡ true))

weakened : (b b' : CommandBridge) (g g' : Bool) → Ends b b' → Steps b g b' g'
weakened b b' g g' ends =
    let v = ends.inv in
    let idle : is_capturing b' ≡ false = ground (arith, v.consent) in
    (
      record {
        safe = v.safe;
        consent = ground (arith, idle);
        detached = v.detached;
        done = v.done;
        unspent = v.unspent;
        once = v.once;
      },
      inl ends.chunks,
    )

mark_ready-Steps :
    (initialized : Bool) (b : CommandBridge) (g : Bool)
    → Inv b g
    → Steps b g (mark_ready initialized b) g
unfolding mark_ready
mark_ready-Steps initialized b g v =
    let same = mark_listening initialized b.transcriber.consumer.gate in
    (
      record {
        safe = record { guarded = rw same v.safe.guarded; provider = v.safe.provider };
        consent = rw same v.consent;
        detached = v.detached;
        done = v.done;
        unspent = v.unspent;
        once = v.once;
      },
      inl refl,
    )

-- A bridge that was just made over a transcriber that was just made, with a gate that does not
-- listen.
pub record IsNew (b : CommandBridge) : Type 0 where
  pub attached : b.attached ≡ true
  pub done : b.done ≡ false
  pub provider : b.transcriber.provider_closed ≡ false
  pub unused : given b ≡ []
  pub idle : is_capturing b ≡ false

new-Inv : (b : CommandBridge) → IsNew b → Inv b false
new-Inv b n =
    let idle = n.idle in
    let fresh : dispatches (given b) ≡ 0 = ap dispatches n.unused in
    record {
      safe = record { guarded = ground (arith, idle); provider = ground (arith, n.provider) };
      consent = ground (arith, idle);
      detached = ground (arith, n.attached);
      done = ground (arith, n.done);
      unspent = λ h. fresh;
      once = omega (arith, fresh);
    }

module _ (cb : Callbacks) where
  begin_capture-Steps :
      (a : Readiness) (b : CommandBridge) (g : Bool)
      → Inv b g
      → Steps b g (begin_capture cb a b).1 (g || is_ready a)
  unfolding begin_capture
  begin_capture-Steps a b g v = elim (Bool-cases (is_detached cb b)) [
    | inl e ↦ simp (e, begin_capture) (weakened b _ g (g || is_ready a) (closed-Ends cb b g v))
    | inr e ↦
        let t = (Transcriber.begin_capture a b.transcriber).1 in
        let heard = begin_capture-listening a b.transcriber v.safe in
        let on : b.attached ≡ true = ground (arith, e) in
        simp (e, begin_capture)
          (
            record {
              safe = begin_capture-IsSafe a b.transcriber v.safe (ground (arith, e));
              consent = ground (arith, heard, v.consent);
              detached = ground (arith, on);
              done = v.done;
              unspent = unfold Transcriber.begin_capture in v.unspent;
              once = unfold Transcriber.begin_capture in v.once;
            },
            inl (unfold Transcriber.begin_capture in refl),
          )
  ]

  consume_frame-Steps :
      (c : Crypto) (f : Value) (b : CommandBridge) (g : Bool)
      → Inv b g
      → Steps b g (consume_frame cb c f b).1 g
  unfolding consume_frame
  consume_frame-Steps c f b g v = elim (Bool-cases (is_detached cb b)) [
    | inl e ↦ simp (e, consume_frame) (weakened b _ g g (closed-Ends cb b g v))
    | inr e ↦
        let same = consume_frame-dispatches cb c f b.transcriber in
        let safe = consume_frame-IsSafe cb c f b.transcriber v.safe in
        let on : b.attached ≡ true = ground (arith, e) in
        elim (Bool-cases (is_capturing b)) [
          | inl h ↦
              let agreed : g ≡ true = ground (arith, h, v.consent) in
              simp (e, consume_frame)
                (
                  record {
                    safe = safe;
                    consent = ground (arith, agreed);
                    detached = ground (arith, on);
                    done = v.done;
                    unspent = λ k. same ∙ v.unspent on;
                    once = omega (arith, same, v.once);
                  },
                  inr agreed,
                )
          | inr h ↦
              let next = consume_frame-IsIdle cb c f b.transcriber v.safe h in
              let idle = next.idle in
              simp (e, consume_frame)
                (
                  record {
                    safe = safe;
                    consent = ground (arith, idle);
                    detached = ground (arith, on);
                    done = v.done;
                    unspent = λ k. same ∙ v.unspent on;
                    once = omega (arith, same, v.once);
                  },
                  inl next.counts.0,
                )
        ]
  ]

  module _ (c : Crypto) where
    step-Steps :
        (b : CommandBridge) (g : Bool) (x : Call)
        → Inv b g
        → Steps b g (step c cb b x) (granted_after g x)
    unfolding step
    step-Steps b g (marks initialized) v = mark_ready-Steps initialized b g v
    step-Steps b g (begins a) v = begin_capture-Steps a b g v
    step-Steps b g (consumes f) v = consume_frame-Steps c f b g v
    step-Steps b g finalizes v = weakened b _ g false (finalize-Ends cb b g v)
    step-Steps b g cancels v = weakened b _ g false (cancel-Ends cb b g v)
    step-Steps b g closes v = weakened b _ g false (closed-Ends cb b g v)

    run-Inv :
        (b : CommandBridge) (g : Bool) (xs : List Call)
        → Inv b g
        → Inv (run c cb b xs) (granted g xs)
    unfolding run
    run-Inv b g [] v = v
    run-Inv b g (x ∷ xs) v = run-Inv (step c cb b x) (granted_after g x) xs (step-Steps b g x v).0

    -- Whatever methods of a new bridge are called, with `mark_codec_ready` of its gate between them,
    -- whatever frames arrive and whatever the callbacks answer: at most one transcript is dispatched,
    -- and a call gives the provider no chunk unless a capture was asked for before with display,
    -- consent and transport ready, and no call to finalize, cancel or close came after that.
    pub capture_confined :
        (b : CommandBridge) (xs : List Call) (x : Call)
        → IsNew b
        → (dispatches (given (run c cb b xs)) ≤ 1)
          × ((chunks_heard (given (step c cb (run c cb b xs) x))
                ≡ chunks_heard (given (run c cb b xs)))
              ⊎ (granted false xs ≡ true))
    capture_confined b xs x n =
        let v = run-Inv b false xs (new-Inv b n) in
        (v.once, (step-Steps (run c cb b xs) (granted false xs) x v).1)
