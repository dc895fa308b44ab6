-- ===== src/Examples/Capturing.antt =====
-- The theorems on secure audio, applied to small streams over the sessions and the cipher of
-- Securing.
use pipa_personal_assistant.Prelude.{
  true, false, Option, none, some, List, [], ◌∷◌, ◌++◌, ◌≤◌, ◌≡◌, ◌⊎◌, refl, arith, ok, map,
}
use pipa_personal_assistant.Prelude.Bytes.{Bytes, replicate}
use pipa_personal_assistant.Json.{Value, null, str, dict, Fields}
use pipa_personal_assistant.Secure.Audio.Sender.{AudioSender, new_sender}
use pipa_personal_assistant.Secure.Audio.Receiver.{new_receiver}
use pipa_personal_assistant.Secure.Audio.{is_stream_id, is_chunk_size}
use pipa_personal_assistant.Secure.Audio.Chunks.{IsChunk, audio_frame}
use pipa_personal_assistant.Secure.Audio.Stream.{seal_stream, total}
use pipa_personal_assistant.Secure.Capture.{disabled, is_listening, Readiness}
use pipa_personal_assistant.Secure.Capture.Transcriber.{Effect, heard, Callbacks}
use pipa_personal_assistant.Secure.Capture.Transcriber.Counts.{chunks_heard, dispatches}
use pipa_personal_assistant.Secure.Capture.Bridge.{
  CommandBridge, Call, given, finalize, marks, begins, consumes, step, run,
}
use pipa_personal_assistant.Secure.Capture.Bridge.Consent.{granted, IsNew, capture_confined}
use pipa_personal_assistant.Secure.Capture.Bridge.Spoken.{
  Answers, heard_log, ready_bridge, spoken_dispatched,
}
use pipa_personal_assistant.Secure.Capture.Consumer.{Summary}
use pipa_personal_assistant.TextPolicy.{validate_bounded_text, is_forbidden}
use pipa_personal_assistant.Json.Encode.{utf8_len, utf8_size}
use pipa_personal_assistant.Prelude.Text.{strip, every}
use pipa_personal_assistant.Examples.Securing.{toy, toy-IsSound, quiet}

abbrev first_chunk : Bytes
first_chunk = 1 ∷ 2 ∷ []

abbrev last_chunk : Bytes
last_chunk = 3 ∷ 4 ∷ 5 ∷ 6 ∷ []

first-IsChunk : IsChunk first_chunk
unfolding is_chunk_size
first-IsChunk = record { bytes = (omega arith, (omega arith, tt)); size = refl }

last-IsChunk : IsChunk last_chunk
unfolding is_chunk_size
last-IsChunk = record {
  bytes = (omega arith, (omega arith, (omega arith, (omega arith, tt))));
  size = refl;
}

voice-valid : is_stream_id "voice" ≡ true
unfolding is_stream_id
voice-valid = refl

-- a provider that hears a command in the final chunk, and a dispatcher that answers nothing
abbrev heard_command : List Effect → Option Value
heard_command (heard p true ∷ es) = some (str " apaga la luz ")
heard_command es = some null

abbrev callbacks : Callbacks
callbacks = record { provider = heard_command; reset_provider = none; dispatch = λ es. some null }

abbrev bridge : CommandBridge
bridge = record {
  transcriber = record {
    consumer = record {
      receiver = new_receiver quiet;
      gate = disabled;
      closed = false;
      finished = false;
    };
    hearing = record { transcript = none; given = [] };
    provider_closed = false;
    finalized = false;
  };
  attached = true;
  done = false;
}

abbrev spoken : Fields
spoken =
    audio_frame "s" 0 (replicate 16 0 ++ first_chunk)
      (record { chunk_index = 0; final = true; stream_id = "voice" })

abbrev all_ready : Readiness
all_ready = record { display_ready = true; consented = true; secure_transport_ready = true }

abbrev ready : List Call
ready = marks true ∷ begins all_ready ∷ []

bridge-IsNew : IsNew bridge
unfolding is_listening
bridge-IsNew = record { attached = refl; done = refl; provider = refl; unused = refl; idle = refl }

capture_confined_example :
    (dispatches (given (run toy callbacks bridge ready)) ≤ 1)
    × ((chunks_heard
            (given (step toy callbacks (run toy callbacks bridge ready) (consumes (dict spoken))))
          ≡ chunks_heard (given (run toy callbacks bridge ready)))
        ⊎ (granted false ready ≡ true))
capture_confined_example =
    capture_confined callbacks toy bridge ready (consumes (dict spoken)) bridge-IsNew

command-Answers : Answers callbacks " apaga la luz " null
unfolding validate_bounded_text utf8_len utf8_size strip every is_forbidden
command-Answers = record {
  silent = λ p es. refl;
  spoken = λ p es. refl;
  valid = refl;
  answered = λ es. refl;
}

spoken_dispatched_example :
    (s : AudioSender) × (fs : List Fields) × (summary : Summary) × (new_sender quiet (str "voice")
      ≡ ok s)
    × (seal_stream toy (first_chunk ∷ last_chunk ∷ []) s ≡ ok fs)
    × (given (
          run toy callbacks
            (ready_bridge quiet)
            (begins all_ready ∷ map (λ f. consumes (dict f)) fs))
        ≡ heard_log (first_chunk ∷ last_chunk ∷ []) [])
    × ((finalize callbacks (
          run toy callbacks
            (ready_bridge quiet)
            (begins all_ready ∷ map (λ f. consumes (dict f)) fs))).0
        ≡ ok (summary, null))
    × (summary.stream_bytes ≡ total (first_chunk ∷ last_chunk ∷ []))
spoken_dispatched_example =
    spoken_dispatched toy callbacks " apaga la luz " null command-Answers toy-IsSound quiet quiet
      "voice" first_chunk (last_chunk ∷ []) all_ready
      (record { session = refl; key = refl; prefix = refl }) refl refl refl voice-valid
      (first-IsChunk, (last-IsChunk, tt)) (omega arith) (omega arith) refl
