-- ===== src/Secure/Capture/Bridge/Ending.antt =====
-- The calls that end a capture.
use pipa_personal_assistant.Prelude.{
  ◌≤◌, String, Bool, true, false, ◌&&◌, not, Option, none, some, ◌∷◌, Result, ok, err, ◌≡◌, refl,
  ◌∙◌, arith, Bool-cases, Option-cases, inl, inr,
}
use pipa_personal_assistant.Secure.Audio.{AudioError}
use pipa_personal_assistant.Secure.Capture.{is_listening}
use pipa_personal_assistant.Secure.Capture.Consumer.{Summary}
use pipa_personal_assistant.Secure.Capture.Transcriber
use pipa_personal_assistant.Secure.Capture.Transcriber.{
  Effect, dispatched, Callbacks, AudioTranscriber, is_closed,
}
use pipa_personal_assistant.Secure.Capture.Transcriber.Counts.{
  chunks_heard, dispatches, IsSafe, IsIdle, close-closed, close-IsIdle, finalize-IsIdle,
  cancel-IsIdle,
}
use pipa_personal_assistant.Secure.Capture.Bridge.{
  CommandBridge, given, close, is_detached, dispatch, dispatch_finalized, finalize, cancelled,
  cancel,
}

abbrev pub is_capturing : CommandBridge → Bool
is_capturing b = is_listening b.transcriber.consumer.gate

pub record Inv (b : CommandBridge) (g : Bool) : Type 0 where
  pub safe : IsSafe b.transcriber
  pub consent : is_capturing b && not g ≡ false
  pub detached : not b.attached && not b.transcriber.consumer.closed ≡ false
  pub done : b.done && b.attached ≡ false
  pub unspent : b.attached ≡ true → dispatches (given b) ≡ 0
  pub once : dispatches (given b) ≤ 1

-- Nothing is captured after a step, and no chunk was given.
pub record Ends (b b' : CommandBridge) : Type 0 where
  pub inv : Inv b' false
  pub chunks : chunks_heard (given b') ≡ chunks_heard (given b)

pub detached_idle :
    (b : CommandBridge) (g : Bool) → Inv b g → b.attached ≡ false → is_capturing b ≡ false
detached_idle b g v e =
    let closed : b.transcriber.consumer.closed ≡ true = ground (arith, e, v.detached) in
    ground (arith, closed, v.safe.guarded)

stays : (b : CommandBridge) (g : Bool) → Inv b g → is_capturing b ≡ false → Ends b b
stays b g v idle = record {
  inv = record {
    safe = v.safe;
    consent = ground (arith, idle);
    detached = v.detached;
    done = v.done;
    unspent = v.unspent;
    once = v.once;
  };
  chunks = refl;
}

module _ (cb : Callbacks) where
  close-Ends :
      (b : CommandBridge)
      → IsSafe b.transcriber
      → b.attached ≡ true
      → dispatches (given b) ≤ 1
      → Ends b (close cb b)
  unfolding close
  close-Ends b safe e once =
      let shut = close-IsIdle cb b.transcriber safe in
      let closed = close-closed cb b.transcriber safe in
      let idle = shut.idle in
      let same = shut.counts in
      simp (e, close)
        (record {
          inv = record {
            safe = shut.safe;
            consent = ground (arith, idle);
            detached = ground (arith, closed);
            done = ground arith;
            unspent = λ f. cc;
            once = omega (arith, same.1, once);
          };
          chunks = same.0;
        })

  pub closed-Ends : (b : CommandBridge) (g : Bool) → Inv b g → Ends b (close cb b)
  closed-Ends b g v = elim (Bool-cases b.attached) [
    | inl e ↦ close-Ends b v.safe e v.once
    | inr e ↦ unfold close in simp (e, close) (stays b g v (detached_idle b g v e))
  ]

  -- the step of an attached bridge to an idle transcriber
  moved-Ends :
      (b : CommandBridge) (g done : Bool) (t : AudioTranscriber)
      → Inv b g
      → b.attached ≡ true
      → done ≡ false
      → IsIdle b.transcriber t
      → Ends b (record b { transcriber = t; done = done })
  moved-Ends b g done t v e f next =
      let idle = next.idle in
      record {
        inv = record {
          safe = next.safe;
          consent = ground (arith, idle);
          detached = ground (arith, e);
          done = ground (arith, f);
          unspent = λ h. next.counts.1 ∙ v.unspent e;
          once = omega (arith, next.counts.1, v.once);
        };
        chunks = next.counts.0;
      }

  dispatch-Ends :
      (summary : Summary) (o : Option String) (b : CommandBridge)
      → IsSafe b.transcriber
      → b.attached ≡ true
      → dispatches (given b) ≡ 0
      → Ends b (dispatch cb summary o b).1
  unfolding dispatch
  dispatch-Ends summary none b safe e fresh = close-Ends b safe e (omega (arith, fresh))
  dispatch-Ends summary (some s) b safe e fresh =
      let effects = dispatched s ∷ given b in
      let h = record b.transcriber.hearing { given = effects } in
      let after : CommandBridge = record b { transcriber = record b.transcriber { hearing = h } } in
      let kept : IsSafe after.transcriber = record {
        guarded = safe.guarded;
        provider = safe.provider;
      } in
      elim (Option-cases (cb.dispatch effects)) [
        | inl f ↦
            let ends = close-Ends after kept e (omega (arith, fresh)) in
            simp (f, dispatch) (record { inv = ends.inv; chunks = ends.chunks })
        | inr (v, f) ↦
            let ends = close-Ends (record after { done = true }) kept e (omega (arith, fresh)) in
            simp (f, dispatch) (record { inv = ends.inv; chunks = ends.chunks })
      ]

  dispatch_finalized-Ends :
      (b : CommandBridge) (g : Bool) (o : Result AudioError Summary × AudioTranscriber)
      → Inv b g
      → b.attached ≡ true
      → IsIdle b.transcriber o.1
      → Ends b (dispatch_finalized cb b o).1
  unfolding dispatch_finalized
  dispatch_finalized-Ends b g (err x, t) v e next =
      let ends =
        close-Ends (record b { transcriber = t }) next.safe e
          (omega (arith, next.counts.1, v.once)) in
      record { inv = ends.inv; chunks = ends.chunks ∙ next.counts.0 }
  dispatch_finalized-Ends b g (ok summary, t) v e next =
      let ends =
        dispatch-Ends summary (Transcriber.transcript t) (record b { transcriber = t }) next.safe e
          (next.counts.1 ∙ v.unspent e) in
      record { inv = ends.inv; chunks = ends.chunks ∙ next.counts.0 }

  pub finalize-Ends : (b : CommandBridge) (g : Bool) → Inv b g → Ends b (finalize cb b).1
  unfolding finalize
  finalize-Ends b g v = elim (Bool-cases b.done) [
    | inl e ↦
        let off : b.attached ≡ false = ground (arith, e, v.done) in
        simp (e, finalize) (stays b g v (detached_idle b g v off))
    | inr e ↦ elim (Bool-cases (is_detached cb b)) [
      | inl f ↦ simp (e, f, finalize) (closed-Ends b g v)
      | inr f ↦
          simp (e, f, finalize)
            (dispatch_finalized-Ends b g (Transcriber.finalize cb b.transcriber) v
              (ground (arith, f)) (finalize-IsIdle cb b.transcriber v.safe))
    ]
  ]

  cancelled-Ends :
      (b : CommandBridge) (g : Bool) (o : Result AudioError (Unit {0}) × AudioTranscriber)
      → Inv b g
      → b.attached ≡ true
      → IsIdle b.transcriber o.1
      → Ends b (cancelled cb b o).1
  cancelled-Ends b g (err x, t) v e next =
      moved-Ends b g b.done t v e (ground (arith, e, v.done)) next
  cancelled-Ends b g (ok _, t) v e next = moved-Ends b g false t v e refl next

  pub cancel-Ends : (b : CommandBridge) (g : Bool) → Inv b g → Ends b (cancel cb b).1
  unfolding cancel
  cancel-Ends b g v = elim (Bool-cases b.attached) [
    | inl e ↦
        simp (e, cancel)
          (cancelled-Ends b g (Transcriber.cancel cb b.transcriber) v e
            (cancel-IsIdle cb b.transcriber v.safe))
    | inr e ↦ simp (e, cancel) (stays b g v (detached_idle b g v e))
  ]
