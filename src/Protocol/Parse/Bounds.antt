-- ===== src/Protocol/Parse/Bounds.antt =====
-- What a message that the parser accepts satisfies.
use pipa_personal_assistant.Prelude.{
  ℕ, ◌≡◌, refl, String, Bool, true, false, List, [], ◌∷◌, contains, Result, ok, ◌>>=◌, Ensures,
  Ensures-of_eq, Ensures_eq, Ensures-bind, require, Option-cases, inl, inr,
}
use pipa_personal_assistant.Json.{Value, null, str, dict, Fields}
use pipa_personal_assistant.Protocol.{
  ProtocolError, ClientMessage, max_text_length, max_tool_name_length,
}
use pipa_personal_assistant.Protocol.Checks.{
  string, optional_string, capabilities, protocol_version, check_digest, value_at,
}
use pipa_personal_assistant.Protocol.Parse.{
  MessageType, gestures, check_source, check_audio_state, check_battery, check_rssi,
  check_arguments, check_accepted, parse_fields, check_fields, check_type, parse_client_message,
  message_type, unknown_fields,
}
use pipa_personal_assistant.Protocol.Parse.Checked.{
  IsText, Maybe, AreCapabilities, IsSource, IsAudioState, IsBattery, IsRssi, IsDigest, Fits,
  InBounds, check_string-IsText, check_optional_string-IsText, check_capabilities-AreCapabilities,
  check_arguments-fit, check_digest-IsDigest, check_source-known, check_audio_state-known,
  check_battery-in_range, check_rssi-in_range,
}

module _ (name : String) (n : ℕ) (p : Fields) where
  string-Ensures : Ensures (IsText n) (string name n p)
  string-Ensures = Ensures-of_eq _ _ λ s. check_string-IsText name n (value_at name p)

  optional_string-Ensures : Ensures (Maybe (IsText n)) (optional_string name n p)
  optional_string-Ensures =
      Ensures-of_eq _ _ λ o. check_optional_string-IsText name n (value_at name p)

capabilities-Ensures : (p : Fields) → Ensures AreCapabilities (capabilities p)
capabilities-Ensures p = Ensures-of_eq _ _ λ caps. check_capabilities-AreCapabilities _

require-Ensures : (b : Bool) (e : ProtocolError) → Ensures (λ _. b ≡ true) (require b e)
require-Ensures true e = refl
require-Ensures false e = tt

-- one step of a message's `do` block
module _ {A : Type 0} (P : A → Type 0) where
  and_then :
      (m : Result ProtocolError A) (f : A → Result ProtocolError ClientMessage)
      → Ensures P m
      → ((a : A) → P a → Ensures InBounds (f a))
      → Ensures InBounds (m >>= f)
  and_then m f = Ensures-bind P InBounds m f

parse_fields-Ensures : (t : MessageType) (p : Fields) → Ensures InBounds (parse_fields t p)
unfolding parse_fields
parse_fields-Ensures MessageType.challenge_request p =
    and_then (IsText 64) _ _ (string-Ensures "device_id" 64 p) λ d hd. hd
parse_fields-Ensures MessageType.hello p =
    and_then (IsText 64) _ _ (string-Ensures "device_id" 64 p) λ d hd.
      and_then (IsText 128) _ _ (string-Ensures "challenge_id" 128 p) λ c hc.
        and_then (IsText 256) _ _ (string-Ensures "signature" 256 p) λ s hs.
          and_then (Maybe (IsText 32)) _ _ (optional_string-Ensures "firmware_version" 32 p) λ f hf.
            and_then AreCapabilities _ _ (capabilities-Ensures p)
              λ caps hcaps. (hd, hc, hs, hf, hcaps)
parse_fields-Ensures MessageType.device_hello p =
    and_then (Maybe (IsText 32)) _ _ (optional_string-Ensures "firmware_version" 32 p)
      λ f hf. and_then AreCapabilities _ _ (capabilities-Ensures p) λ caps hcaps. (hf, hcaps)
parse_fields-Ensures MessageType.text_input p =
    and_then (IsText max_text_length) _ _ (string-Ensures "text" max_text_length p) λ s hs.
      and_then IsSource _ _ (Ensures-of_eq IsSource (check_source _) λ t. check_source-known _)
        λ t ht. (hs, ht)
parse_fields-Ensures MessageType.ping p =
    and_then (Maybe (IsText 64)) _ _ (optional_string-Ensures "request_id" 64 p) λ r hr. hr
parse_fields-Ensures MessageType.device_status p =
    and_then (Maybe IsAudioState) _ _
      (Ensures-of_eq (Maybe IsAudioState) (check_audio_state _) λ a. check_audio_state-known _)
      λ a ha.
        and_then (Maybe IsBattery) _ _
          (Ensures-of_eq (Maybe IsBattery) (check_battery _) λ b. check_battery-in_range _)
          λ b hb.
            and_then (Maybe IsRssi) _ _
              (Ensures-of_eq (Maybe IsRssi) (check_rssi _) λ r. check_rssi-in_range _)
              λ r hr. (ha, hb, hr)
parse_fields-Ensures MessageType.gesture p =
    and_then (IsText 32) _ _ (string-Ensures "gesture" 32 p) λ g hg.
      and_then (λ _. contains g gestures ≡ true) _ _ (require-Ensures (contains g gestures) _)
        λ _ h. (hg, h)
parse_fields-Ensures MessageType.tool_call p =
    and_then (IsText max_tool_name_length) _ _ (string-Ensures "name" max_tool_name_length p)
      λ n hn.
        and_then Fits _ _ (Ensures-of_eq Fits (check_arguments _) λ a. check_arguments-fit _)
          λ a ha.
            and_then (Maybe (IsText 128)) _ _ (optional_string-Ensures "call_id" 128 p) λ c hc.
              and_then (Maybe IsDigest) _ _
                (Ensures-of_eq (Maybe IsDigest) (check_digest _) λ d. check_digest-IsDigest _)
                λ d hd. (hn, ha, hc, hd)
parse_fields-Ensures MessageType.confirm p =
    and_then (IsText 128) _ _ (string-Ensures "confirmation_id" 128 p) λ c hc.
      and_then (λ _. Unit) _ _ (Ensures-of_eq (λ _. Unit) (check_accepted _) λ b _. tt) λ b hb. hc
parse_fields-Ensures _ p = tt

check_fields-Ensures :
    (ks : List String) (t : MessageType) (p : Fields) → Ensures InBounds (check_fields ks t p)
unfolding check_fields
check_fields-Ensures [] t p =
    and_then (λ _. Unit) _ _ (Ensures-of_eq (λ _. Unit) (protocol_version p) λ _ _. tt)
      λ _ _. parse_fields-Ensures t p
check_fields-Ensures (k ∷ ks) t p = tt

check_type-Ensures : (v : Value) (p : Fields) → Ensures InBounds (check_type v p)
unfolding check_type
check_type-Ensures (str name) p = elim (Option-cases (message_type name)) [
  | inl e ↦ rw (e, check_type) tt
  | inr (t, e) ↦ rw (e, check_type) (check_fields-Ensures (unknown_fields t p) t p)
]
check_type-Ensures null p = tt
check_type-Ensures _ p = tt

parse-Ensures : (payload : Value) → Ensures InBounds (parse_client_message payload)
unfolding parse_client_message
parse-Ensures (dict p) = check_type-Ensures _ p
parse-Ensures null = tt
parse-Ensures _ = tt

-- Whatever the payload, a message that is accepted is in bounds: its texts are not empty, within
-- their lengths and free of control characters, its capabilities few and distinct, its arguments
-- finite and of at most 4096 bytes, its numbers in range.
pub parse-InBounds :
    (payload : Value) (m : ClientMessage) → parse_client_message payload ≡ ok m → InBounds m
parse-InBounds payload m =
    Ensures_eq InBounds (parse_client_message payload) (parse-Ensures payload)
