-- ===== src/Secure/Session.antt =====
-- `SecureSession` of windows-agent/secure_session.py: records of a session that is already keyed. A
-- call returns the session beside its result; one that raises leaves it as it was.
pub mod Opening
pub mod Channel
pub mod Nonces
use pipa_personal_assistant.Prelude.{
  ℕ, suc, ◌+◌, ◌-◌, ◌*◌, ◌^◌, ltb, leb, nat_eq, between, String, Bool, true, false, ◌&&◌, ◌||◌, not,
  Option, none, some, List, [], ◌∷◌, ◌++◌, ◌==◌, if◌then◌else◌, length, Result, ok, err, ◌>>=◌,
  ◌>>◌, require,
}
use pipa_personal_assistant.Prelude.Int.{pos, is_nat}
use pipa_personal_assistant.Prelude.Bytes.{Bytes, big_endian}
use pipa_personal_assistant.Prelude.Text.{len, every}
use pipa_personal_assistant.Json.{
  Value, null, bool, int, float, str, list, dict, Fields, end, field, get_field, get_or,
}
use pipa_personal_assistant.Secure.Crypto.{Crypto}
use pipa_personal_assistant.Secure.Base64.{DecodeError, not_base64url, encode, decode}
use pipa_personal_assistant.Secure.Canonical.{text, number, canonical}

abbrev pub secure_protocol_version : ℕ
secure_protocol_version = 2

abbrev pub max_record_bytes : ℕ
max_record_bytes = 64 * 1024

abbrev pub max_additional_data_bytes : ℕ
max_additional_data_bytes = 1024

abbrev pub max_sequence : ℕ
max_sequence = 2 ^ 64 - 1

abbrev pub aead_key_bytes : ℕ
aead_key_bytes = 32

abbrev pub nonce_prefix_bytes : ℕ
nonce_prefix_bytes = 4

abbrev pub is_identifier_character : ℕ → Bool
is_identifier_character c =
    between b'A' b'Z' c
    || between b'a' b'z' c
    || between b'0' b'9' c
    || nat_eq c b'_'
    || nat_eq c b'-'

-- `_SESSION_ID_PATTERN`, and `_IDENTITY_ID_PATTERN`, which is the same
unfoldable pub is_identifier : String → Bool
unfolding len every
is_identifier s = between 1 128 (len s) && every is_identifier_character s

-- `ClosedSessionError`, `ReplayError`, and a constructor for each `RecordError`
pub data RecordError : Type 0 where
  closed_session payload_too_large additional_data_too_large sequence_exhausted : RecordError
  not_an_object other_session invalid_sequence replay : RecordError
  invalid_ciphertext : DecodeError → RecordError
  frame_too_large not_authentic plaintext_too_large : RecordError

pub record SecureSession : Type 0 where
  pub session_id : String
  pub send_key : Bytes
  pub receive_key : Bytes
  pub send_nonce_prefix : Bytes
  pub receive_nonce_prefix : Bytes
  pub send_sequence : ℕ
  pub receive_sequence : ℕ
  pub closed : Bool

-- `SecureSession(…)`, on a session id that was checked; `none` is its `TypeError`
unfoldable pub new_session : String → Bytes → Bytes → Bytes → Bytes → Option SecureSession
new_session id send_key receive_key send_prefix receive_prefix =
    if nat_eq (length send_key) aead_key_bytes
      && nat_eq (length receive_key) aead_key_bytes
      && nat_eq (length send_prefix) nonce_prefix_bytes
      && nat_eq (length receive_prefix) nonce_prefix_bytes
    then some (record {
      session_id = id;
      send_key = send_key;
      receive_key = receive_key;
      send_nonce_prefix = send_prefix;
      receive_nonce_prefix = receive_prefix;
      send_sequence = 0;
      receive_sequence = 0;
      closed = false;
    })
    else none

-- `_nonce`
unfoldable pub nonce : Bytes → ℕ → Bytes
nonce prefix sequence = prefix ++ big_endian 8 sequence

-- `_canonical(header) + additional_data`
unfoldable pub header_data : String → ℕ → Bytes → Bytes
header_data id sequence additional_data =
    canonical (
      ("protocol_version", number secure_protocol_version)
      ∷ ("sequence", number sequence)
      ∷ ("session_id", text id)
      ∷ [])
    ++ additional_data

-- the frame with this ciphertext
unfoldable pub frame : String → ℕ → Bytes → Fields
frame id sequence ciphertext = field "protocol_version" (int (pos secure_protocol_version)) (
    field "sequence" (int (pos sequence))
      (field "session_id" (str id) (field "ciphertext" (str (encode ciphertext)) end)))

-- `frame.get("protocol_version") != 2` does not hold: Python finds `2.0` equal to 2
unfoldable pub equals_version : Value → Bool
equals_version (int n) = is_nat secure_protocol_version n
equals_version (float x) = elim x.whole [ none ↦ false | some n ↦ is_nat secure_protocol_version n ]
equals_version _ = false

unfoldable pub equals_text : String → Value → Bool
equals_text s (str t) = t == s
equals_text s _ = false

-- `frame.get(name)`
abbrev pub value_at : String → Fields → Value
value_at name f = get_or (get_field name f) null

-- the sequence of a frame, an `int` that is no `bool`, in range
unfoldable pub as_sequence : Value → Result RecordError ℕ
as_sequence (int (pos n)) = if ltb max_sequence n then err invalid_sequence else ok n
as_sequence _ = err invalid_sequence

-- `_decode_record`
unfoldable pub decode_record : Value → Result RecordError Bytes
decode_record (str s) = elim (decode s) [ ok bs ↦ ok bs | err e ↦ err (invalid_ciphertext e) ]
decode_record _ = err (invalid_ciphertext not_base64url)

-- the checks of `seal`
unfoldable pub check_seal : Bytes → Bytes → SecureSession → Result RecordError (Unit {0})
check_seal payload additional_data s = do
  require (not s.closed) closed_session
  require (not (ltb max_record_bytes (length payload))) payload_too_large
  require (not (ltb max_additional_data_bytes (length additional_data))) additional_data_too_large
  require (not (ltb max_sequence s.send_sequence)) sequence_exhausted

-- the checks of `open` before it decrypts, on a frame that is an object; the ciphertext is returned
unfoldable pub check_frame : Fields → Bytes → SecureSession → Result RecordError Bytes
check_frame f additional_data s = do
  require
      (equals_version (value_at "protocol_version" f)
        && equals_text s.session_id (value_at "session_id" f))
      other_session
  sequence ← as_sequence (value_at "sequence" f)
  require (nat_eq sequence s.receive_sequence) replay
  ciphertext ← decode_record (value_at "ciphertext" f)
  require (not (ltb (max_record_bytes + 16) (length ciphertext))) frame_too_large
  require (not (ltb max_additional_data_bytes (length additional_data))) additional_data_too_large
  ok ciphertext

unfoldable pub check_plaintext : Option Bytes → Result RecordError Bytes
check_plaintext none = err not_authentic
check_plaintext (some p) = if ltb max_record_bytes (length p) then err plaintext_too_large else ok p

module _ (c : Crypto) where
  -- the ciphertext of `seal`
  unfoldable pub sealed : Bytes → Bytes → SecureSession → Bytes
  sealed payload additional_data s =
      c.encrypt s.send_key (nonce s.send_nonce_prefix s.send_sequence) payload
        (header_data s.session_id s.send_sequence additional_data)

  abbrev pub seal_checked :
      Bytes
      → Bytes
      → SecureSession
      → Result RecordError (Unit {0})
      → Result RecordError Fields × SecureSession
  seal_checked payload additional_data s (ok _) = (
    ok (frame s.session_id s.send_sequence (sealed payload additional_data s)),
    record s { send_sequence = s.send_sequence + 1 },
  )
  seal_checked payload additional_data s (err e) = (err e, s)

  unfoldable pub seal : Bytes → Bytes → SecureSession → Result RecordError Fields × SecureSession
  seal payload additional_data s =
      seal_checked payload additional_data s (check_seal payload additional_data s)

  -- the checks of `open`, up to the plaintext
  unfoldable pub opened : Value → Bytes → SecureSession → Result RecordError Bytes
  opened (dict f) additional_data s = do
    require (not s.closed) closed_session
    ciphertext ← check_frame f additional_data s
    check_plaintext (
        c.decrypt s.receive_key (nonce s.receive_nonce_prefix s.receive_sequence) ciphertext
          (header_data s.session_id s.receive_sequence additional_data))
  opened _ additional_data s = if s.closed then err closed_session else err not_an_object

  abbrev pub open_checked :
      SecureSession → Result RecordError Bytes → Result RecordError Bytes × SecureSession
  open_checked s (ok p) = (ok p, record s { receive_sequence = s.receive_sequence + 1 })
  open_checked s (err e) = (err e, s)

  -- `open`
  unfoldable pub open_frame :
      Value → Bytes → SecureSession → Result RecordError Bytes × SecureSession
  open_frame f additional_data s = open_checked s (opened f additional_data s)

unfoldable pub close : SecureSession → SecureSession
close s = record s { closed = true }
