-- ===== src/Examples/Handshaking.antt =====
-- The theorems on the handshake and on the server of secure sessions, applied to a phone and a
-- server with small keys.
use pipa_personal_assistant.Prelude.{◌≡◌, ◌⊎◌, refl, some, [], ◌∷◌, ok, err, arith, contains}
use pipa_personal_assistant.Prelude.Int.{pos}
use pipa_personal_assistant.Prelude.Bytes.{Bytes, replicate}
use pipa_personal_assistant.Json.{Value, int, str, dict, end, field, get_field, field_names}
use pipa_personal_assistant.Secure.Base64.{
  encode, decode, decode_sized, decode_values, sextets, sextet, unpack, letter,
}
use pipa_personal_assistant.Secure.Session.{SecureSession, is_identifier}
use pipa_personal_assistant.Secure.Hello.{
  validate_handshake_fields, decode_field, ClientHello, ServerHello, check_client_hello,
  check_server_hello,
}
use pipa_personal_assistant.Secure.Handshake.{
  new_server_hello, new_client_hello, SecureIdentity, create_client_hello, create_server_hello,
  complete_client_handshake, signed_client_hello, signed_server_hello,
}
use pipa_personal_assistant.Secure.Handshake.Mirror.{IsMirror}
use pipa_personal_assistant.Secure.Handshake.Transcript.{SameTranscript}
use pipa_personal_assistant.Secure.Handshake.Agreement.{Made, IsAnswerTo, handshake_agreement}
use pipa_personal_assistant.Secure.Handshake.Completing.{handshake_completes}
use pipa_personal_assistant.Json.Encode.{encoded_size}
use pipa_personal_assistant.Secure.Server.{
  already_consumed, not_paired, as_client_hello, has_hello_fields, check_payload, forget_expired,
  SessionServer, accept_unused, accept_hello, accept_client_hello, accepts, refreshes, run,
}
use pipa_personal_assistant.Secure.Server.Once.{session_id_once}
use pipa_personal_assistant.Examples.Securing.{toy, toy-IsSound}

abbrev phone : SecureIdentity toy
phone = record { identity_id = "phone"; private_key = 1 }

abbrev core : SecureIdentity toy
core = record { identity_id = "core"; private_key = 2 }

abbrev drawn : Bytes
drawn = replicate 32 0

abbrev phone_hello : ClientHello
phone_hello = signed_client_hello toy phone "s" 3 drawn

abbrev core_answer : ServerHello
core_answer = signed_server_hello toy core phone_hello 4 drawn

handshake_completes_example :
    (s r : SecureSession) × (create_client_hello toy phone "s" 3 drawn ≡ ok phone_hello)
    × (create_server_hello toy core phone_hello 1 4 drawn ≡ ok (core_answer, r))
    × (complete_client_handshake toy phone phone_hello 3 core_answer 2 (some "core") ≡ ok s)
    × IsMirror s r
unfolding is_identifier
handshake_completes_example =
    handshake_completes toy toy-IsSound phone core "s" 3 4 drawn drawn (replicate 32 1) refl refl
      refl (omega arith) refl (omega arith) refl refl refl

-- the same exchange, to take its parts
exchanged :
    (s r : SecureSession) × (create_client_hello toy phone "s" 3 drawn ≡ ok phone_hello)
    × (create_server_hello toy core phone_hello 1 4 drawn ≡ ok (core_answer, r))
    × (complete_client_handshake toy phone phone_hello 3 core_answer 2 (some "core") ≡ ok s)
    × IsMirror s r
unfolding is_identifier
exchanged =
    handshake_completes toy toy-IsSound phone core "s" 3 4 drawn drawn (replicate 32 1) refl refl
      refl (omega arith) refl (omega arith) refl refl refl

core_answer_checked : check_server_hello core_answer ≡ ok tt
unfolding check_server_hello validate_handshake_fields decode_field decode_sized decode
    decode_values sextets sextet unpack encode letter is_identifier new_server_hello
    new_client_hello
core_answer_checked = refl

-- the session that the phone gets, and the one that the core keeps
abbrev phone_session : SecureSession
phone_session = exchanged.0

abbrev core_made : Made toy core
core_made = record {
  hello = phone_hello;
  client_key = 1;
  ephemeral = 4;
  drawn = drawn;
  answer = core_answer;
  session = exchanged.1;
  made = exchanged.3;
}

handshake_agreement_example :
    IsAnswerTo phone_hello core_answer
    × ((m : Made toy core) × SameTranscript m.answer core_answer × IsMirror phone_session m.session)
handshake_agreement_example =
    handshake_agreement toy toy-IsSound phone core phone_hello 3 core_answer (some "core")
      core_answer_checked exchanged.4 (λ raw verified. (core_made, refl))

abbrev payload : Value
payload = dict (
    field "client_ephemeral_public_key" (str phone_hello.client_ephemeral_public_key) (
      field "client_id" (str "phone") (
        field "client_nonce" (str phone_hello.client_nonce) (
          field "protocol_version" (int (pos 2))
            (field "session_id" (str "s") (field "signature" (str phone_hello.signature) end))))))

abbrev paired : SessionServer toy
paired = record {
  identity = core;
  trusted_devices = ("phone", 1) ∷ [];
  used_session_ids = ("old", 5) ∷ [];
}

payload_checked : check_payload payload ≡ ok phone_hello
unfolding check_payload encoded_size as_client_hello has_hello_fields field_names get_field
    check_client_hello validate_handshake_fields decode_field decode_sized decode decode_values
    sextets sextet unpack encode letter is_identifier new_client_hello contains
payload_checked = refl

payload_accepted :
    (accept_client_hello toy 3000 4 drawn payload paired).0 ≡ ok (core_answer, exchanged.1)
unfolding accept_client_hello accept_hello accept_unused forget_expired new_client_hello
payload_accepted = ground (arith, payload_checked, exchanged.3)

session_id_once_example :
    let w =
      run toy
        (accept_client_hello toy 3000 4 drawn payload paired).1
        (refreshes (("phone", 1) ∷ ("tablet", 2) ∷ []) ∷ accepts 3010 9 drawn (int (pos 1)) ∷ []) in
    ((accept_client_hello toy 3020 8 drawn payload w).0 ≡ err already_consumed)
    ⊎ ((accept_client_hello toy 3020 8 drawn payload w).0 ≡ err not_paired)
session_id_once_example =
    session_id_once toy 3000 3020 4 8 drawn drawn payload payload phone_hello phone_hello paired
      (refreshes (("phone", 1) ∷ ("tablet", 2) ∷ []) ∷ accepts 3010 9 drawn (int (pos 1)) ∷ [])
      payload_checked payload_checked refl payload_accepted (omega arith) (omega arith)
      (omega arith)
