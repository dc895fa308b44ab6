-- ===== src/Secure/Capture/Consumer/Closing.antt =====
-- When the gate of a consumer listens: only while the consumer is open, and a callback is called
-- only then.
use pipa_personal_assistant.Prelude.{
  Bool, true, false, ◌&&◌, ◌||◌, not, Result, ok, err, ◌≡◌, refl, subst, arith, Bool-cases, inl,
  inr,
}
use pipa_personal_assistant.Prelude.Bytes.{Bytes}
use pipa_personal_assistant.Json.{Value}
use pipa_personal_assistant.Secure.Crypto.{Crypto}
use pipa_personal_assistant.Secure.Audio.Receiver.{AudioReceiver, open_chunk}
use pipa_personal_assistant.Secure.Audio.{AudioError}
use pipa_personal_assistant.Secure.Capture.{
  Gate, disabled, codec_ready, listening, draining, error, Readiness, is_ready, begin_listening,
  begin_draining, finish_draining, drain, is_listening,
}
use pipa_personal_assistant.Secure.Capture.Consumer.{
  AudioConsumer, close, begin_capture, finalize, gate_after_cancel, cancel, consumed, give_chunk,
  consume_frame,
}

-- A consumer that is closed does not listen.
abbrev pub IsGuarded : AudioConsumer → Type 0
IsGuarded k = is_listening k.gate && k.closed ≡ false

drain_idle : (g : Gate) → is_listening (drain g).1 ≡ false
unfolding is_listening drain begin_draining finish_draining
drain_idle disabled = refl
drain_idle codec_ready = refl
drain_idle listening = refl
drain_idle draining = refl
drain_idle error = refl

cancel_idle : (g : Gate) → is_listening (gate_after_cancel g) ≡ false
unfolding is_listening gate_after_cancel drain begin_draining finish_draining
cancel_idle disabled = refl
cancel_idle codec_ready = refl
cancel_idle listening = refl
cancel_idle draining = refl
cancel_idle error = refl

-- Listening starts only where all conditions hold.
begin_ready :
    (a : Readiness) (g : Gate)
    → is_listening (begin_listening a g).1 && not (is_listening g || is_ready a) ≡ false
unfolding is_listening begin_listening
begin_ready a disabled = refl
begin_ready a codec_ready = ground arith
begin_ready a listening = refl
begin_ready a draining = refl
begin_ready a error = refl

pub close-closed : (k : AudioConsumer) → (close k).closed ≡ true
unfolding close
close-closed k = ground arith

pub close-idle : (k : AudioConsumer) → IsGuarded k → is_listening (close k).gate ≡ false
unfolding close is_listening
close-idle k v = ground arith

pub cancel-idle : (k : AudioConsumer) → IsGuarded k → is_listening (cancel k).gate ≡ false
unfolding cancel
cancel-idle k v = ground (arith, cancel_idle k.gate)

pub cancel-closed : (k : AudioConsumer) → (cancel k).closed ≡ k.closed
unfolding cancel
cancel-closed k = ground arith

pub finalize-idle : (k : AudioConsumer) → IsGuarded k → is_listening (finalize k).1.gate ≡ false
unfolding finalize
finalize-idle k v =
    let undrained : IsGuarded (record k { gate = (drain k.gate).1 }) =
      ground (arith, drain_idle k.gate) in
    ground (
      arith,
      drain_idle k.gate,
      close-idle k v,
      close-idle (record k { gate = (drain k.gate).1 }) undrained,
    )

pub finalize-closed : (k : AudioConsumer) → k.closed && not (finalize k).1.closed ≡ false
unfolding finalize
finalize-closed k = ground (arith, close-closed k)

pub begin_capture-ready :
    (a : Readiness) (k : AudioConsumer)
    → IsGuarded k
    → is_listening (begin_capture a k).1.gate && not (is_listening k.gate || is_ready a) ≡ false
unfolding begin_capture
begin_capture-ready a k v = ground (arith, begin_ready a k.gate)

pub begin_capture-closed :
    (a : Readiness) (k : AudioConsumer) → (begin_capture a k).1.closed ≡ k.closed
unfolding begin_capture
begin_capture-closed a k = ground arith

module _ {S : Type 0} (on_chunk : Bytes → Bool → S → Result AudioError (Unit {0}) × S) where
  consumed-IsGuarded :
      (final : Bool) (k : AudioConsumer) (o : Result AudioError (Unit {0}) × S)
      → IsGuarded k
      → IsGuarded (consumed final k o).1
  unfolding consumed
  consumed-IsGuarded final k (ok _, s) v = v
  consumed-IsGuarded final k (err e, s) v = ground (arith, close-idle k v)

  give_chunk-IsGuarded :
      (k : AudioConsumer) (s : S) (o : Result AudioError Bytes × AudioReceiver)
      → IsGuarded k
      → IsGuarded (give_chunk on_chunk k s o).1
  unfolding give_chunk is_listening
  give_chunk-IsGuarded k s (ok p, r) v =
      consumed-IsGuarded r.finished (record k { receiver = r }) (on_chunk p r.finished s) v
  give_chunk-IsGuarded k s (err e, r) v = refl

  pub consume_frame-IsGuarded :
      (c : Crypto) (v : Value) (k : AudioConsumer) (s : S)
      → IsGuarded k
      → IsGuarded (consume_frame on_chunk c v k s).1
  unfolding consume_frame
  consume_frame-IsGuarded c v k s g =
      ground (arith, close-idle k g, give_chunk-IsGuarded k s (open_chunk c v k.receiver) g)

  -- A gate that does not listen stays so, and the callback is not called.
  pub consume_frame-idle :
      (c : Crypto) (v : Value) (k : AudioConsumer) (s : S)
      → IsGuarded k
      → is_listening k.gate ≡ false
      → (is_listening (consume_frame on_chunk c v k s).1.gate ≡ false)
        × ((consume_frame on_chunk c v k s).2 ≡ s)
  unfolding consume_frame
  consume_frame-idle c v k s g idle = ground (arith, idle, close-idle k g)

  consumed-state :
      (final : Bool) (k : AudioConsumer) (o : Result AudioError (Unit {0}) × S)
      → o.1 ≡ (consumed final k o).2
  unfolding consumed
  consumed-state final k (ok _, s) = refl
  consumed-state final k (err e, s) = refl

  module _ (P : S → Type 0)
      (keeps : (p : Bytes) (final : Bool) (s : S) → P s → P (on_chunk p final s).1) where
    give_chunk-keeps :
        (k : AudioConsumer) (s : S) (o : Result AudioError Bytes × AudioReceiver)
        → P s
        → P (give_chunk on_chunk k s o).2
    unfolding give_chunk
    give_chunk-keeps k s (ok p, r) h =
        subst P (consumed-state r.finished (record k { receiver = r }) (on_chunk p r.finished s))
          (keeps p r.finished s h)
    give_chunk-keeps k s (err e, r) h = h

    -- What the callback keeps, the consumer keeps.
    pub consume_frame-keeps :
        (c : Crypto) (v : Value) (k : AudioConsumer) (s : S)
        → P s
        → P (consume_frame on_chunk c v k s).2
    unfolding consume_frame
    consume_frame-keeps c v k s h = elim (Bool-cases k.closed) [
      | inl e ↦ rw (e, consume_frame) h
      | inr e ↦ elim (Bool-cases k.finished) [
        | inl f ↦ rw (e, f, consume_frame) h
        | inr f ↦ elim (Bool-cases (is_listening k.gate)) [
          | inl g ↦
              simp (e, f, g, consume_frame) (give_chunk-keeps k s (open_chunk c v k.receiver) h)
          | inr g ↦ rw (e, f, g, consume_frame) h
        ]
      ]
    ]
