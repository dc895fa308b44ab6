-- ===== src/Secure/Capture.antt =====
-- `AudioCaptureGate` of windows-agent/secure_audio.py; the children are the classes that it guards,
-- `SecureAudioConsumer`, `SecureAudioTranscriber` and `SecureAudioCommandBridge`. A call returns its
-- object beside its result.
pub mod Consumer
pub mod Transcriber
pub mod Bridge
use pipa_personal_assistant.Prelude.{Bool, true, false, ◌&&◌, if◌then◌else◌}

-- `AudioCaptureState`, which is the state of an `AudioCaptureGate`
pub data Gate : Type 0 where
  disabled codec_ready listening draining error : Gate

-- The operations of the gate, which return whether they were let through.
unfoldable pub mark_codec_ready : Bool → Gate → Bool × Gate
mark_codec_ready initialized disabled = if initialized then (true, codec_ready) else (false, error)
mark_codec_ready initialized error = if initialized then (true, codec_ready) else (false, error)
mark_codec_ready initialized g = (false, g)

-- what the owner of the device has shown and allowed
pub record Readiness : Type 0 where
  pub display_ready : Bool
  pub consented : Bool
  pub secure_transport_ready : Bool

abbrev pub is_ready : Readiness → Bool
is_ready a = a.display_ready && a.consented && a.secure_transport_ready

unfoldable pub begin_listening : Readiness → Gate → Bool × Gate
begin_listening a codec_ready = if is_ready a then (true, listening) else (false, codec_ready)
begin_listening a g = (false, g)

unfoldable pub begin_draining : Gate → Bool × Gate
begin_draining listening = (true, draining)
begin_draining g = (false, g)

unfoldable pub finish_draining : Gate → Bool × Gate
finish_draining draining = (true, codec_ready)
finish_draining g = (false, g)

-- `gate.begin_draining() and gate.finish_draining()`
unfoldable pub drain : Gate → Bool × Gate
drain g = let (begun, h) = begin_draining g in if begun then finish_draining h else (false, h)

-- `can_capture`
unfoldable pub is_listening : Gate → Bool
is_listening listening = true
is_listening _ = false
