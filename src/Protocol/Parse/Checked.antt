-- ===== src/Protocol/Parse/Checked.antt =====
-- What a value satisfies that a check of backend/pipa_core/protocol.py lets pass, and the bounds of a
-- message.
use pipa_personal_assistant.Prelude.{
  ℕ, ◌≤◌, ◌≡◌, refl, String, true, false, Option, none, some, List, [], ◌∷◌, length, All, contains,
  distinct, ok, arith, Option-cases, inl, inr,
}
use pipa_personal_assistant.Prelude.Int.{ℤ, in_range, in_negative_range}
use pipa_personal_assistant.Prelude.Text.{len, is_empty, every, strip}
use pipa_personal_assistant.Prelude.Text.Laws.{len-strip, every-strip}
use pipa_personal_assistant.Json.{
  Value, null, str, list, dict, Items, nil, cons, Fields, item_count,
}
use pipa_personal_assistant.Json.Encode.{encoded_size}
use pipa_personal_assistant.Protocol.{
  ClientMessage, challenge_request, hello, device_hello, text_input, ping, device_status, gesture,
  tool_call, confirm, max_text_length, max_tool_name_length, max_arguments_bytes, max_capabilities,
}
use pipa_personal_assistant.Protocol.Checks.{
  is_printable, is_plain_text, check_string, check_optional_string, is_digest, check_digest,
  check_capability, check_capability_items, check_capabilities,
}
use pipa_personal_assistant.Protocol.Parse.{
  text_sources, audio_states, gestures, check_source, check_audio_state, check_battery, check_rssi,
  check_arguments,
}

-- Not empty, of at most `n` characters, and with no control character.
abbrev pub IsText : ℕ → String → Type 0
IsText n s = (is_empty s ≡ false) × (len s ≤ n) × (every is_printable s ≡ true)

-- `P` holds of the value, if there is one.
abbrev pub Maybe : {A : Type 0} → (A → Type 0) → Option A → Type 0
Maybe P none = Unit
Maybe P (some a) = P a

abbrev pub AreCapabilities : List String → Type 0
AreCapabilities caps =
    (length caps ≤ max_capabilities) × All (IsText 32) caps × (distinct caps ≡ true)

abbrev pub IsSource : String → Type 0
IsSource s = contains s text_sources ≡ true

abbrev pub IsAudioState : String → Type 0
IsAudioState s = contains s audio_states ≡ true

abbrev pub IsBattery : ℤ → Type 0
IsBattery n = in_range 100 n ≡ true

abbrev pub IsRssi : ℤ → Type 0
IsRssi n = in_negative_range 127 n ≡ true

abbrev pub IsDigest : String → Type 0
IsDigest d = is_digest d ≡ true

abbrev pub Fits : Fields → Type 0
Fits fs = (n : ℕ) × (encoded_size (dict fs) ≡ some n) × (n ≤ max_arguments_bytes)

-- The bounds of each message, as MOBILE_PROTOCOL.md and the constants state them.
abbrev pub InBounds : ClientMessage → Type 0
InBounds (challenge_request device_id) = IsText 64 device_id
InBounds (hello device_id challenge_id signature firmware caps) =
    IsText 64 device_id
    × IsText 128 challenge_id
    × IsText 256 signature
    × Maybe (IsText 32) firmware
    × AreCapabilities caps
InBounds (device_hello firmware caps) = Maybe (IsText 32) firmware × AreCapabilities caps
InBounds (text_input text source) = IsText max_text_length text × IsSource source
InBounds (ping request_id) = Maybe (IsText 64) request_id
InBounds (device_status audio battery rssi) =
    Maybe IsAudioState audio × Maybe IsBattery battery × Maybe IsRssi rssi
InBounds (gesture g) = IsText 32 g × (contains g gestures ≡ true)
InBounds (tool_call name arguments call_id digest) =
    IsText max_tool_name_length name
    × Fits arguments
    × Maybe (IsText 128) call_id
    × Maybe IsDigest digest
InBounds (confirm confirmation_id accepted) = IsText 128 confirmation_id
InBounds _ = Unit

pub strip-IsText : (n : ℕ) (s : String) → is_plain_text n s ≡ true → IsText n (strip s)
unfolding is_plain_text
strip-IsText n s h = ground (arith, len-strip s, every-strip is_printable s)

pub check_string-IsText :
    (name : String) (n : ℕ) (v : Value) {s : String} → check_string name n v ≡ ok s → IsText n s
unfolding check_string
check_string-IsText name n (str t) h = ground (arith, strip-IsText n t)
check_string-IsText name n null h = cc
check_string-IsText name n _ h = cc

pub check_optional_string-IsText :
    (name : String) (n : ℕ) (v : Value) {o : Option String}
    → check_optional_string name n v ≡ ok o
    → Maybe (IsText n) o
unfolding check_optional_string
check_optional_string-IsText name n null {o = none} h = tt
check_optional_string-IsText name n v {o = none} h = tt
check_optional_string-IsText name n null {o = some s} h = cc
check_optional_string-IsText name n v {o = some s} h =
    check_string-IsText name n v (ground (arith, h))

pub check_capability_items-All :
    (vs : Items) {caps : List String}
    → check_capability_items vs ≡ ok caps
    → All (IsText 32) caps × (length caps ≡ item_count vs)
unfolding check_capability_items item_count check_capability
check_capability_items-All nil {caps = []} h = (tt, refl)
check_capability_items-All nil {caps = c ∷ cs} h = cc
check_capability_items-All (cons (str s) vs) {caps = c ∷ cs} h =
    ground (arith, strip-IsText 32 s, check_capability_items-All vs {caps = cs})
check_capability_items-All (cons v vs) {caps = cs} h = ground arith

pub check_capabilities-AreCapabilities :
    (v : Value) {caps : List String} → check_capabilities v ≡ ok caps → AreCapabilities caps
unfolding check_capabilities
check_capabilities-AreCapabilities (list vs) {caps} h =
    ground (arith, check_capability_items-All vs {caps = caps})
check_capabilities-AreCapabilities null h = cc
check_capabilities-AreCapabilities _ h = cc

pub check_arguments-fit :
    (v : Value) {fs : Fields}
    → check_arguments v ≡ ok fs
    → (n : ℕ) × (encoded_size (dict fs) ≡ some n) × (n ≤ max_arguments_bytes)
unfolding check_arguments
check_arguments-fit (dict gs) {fs} h = elim (Option-cases (encoded_size (dict gs))) [
  | inl e ↦ ground arith
  | inr (n, e) ↦ (n, ground arith, ground arith)
]
check_arguments-fit null h = cc
check_arguments-fit _ h = cc

pub check_digest-IsDigest :
    (v : Value) {o : Option String} → check_digest v ≡ ok o → Maybe IsDigest o
unfolding check_digest
check_digest-IsDigest v {o = none} h = tt
check_digest-IsDigest v {o = some d} h = ground arith

pub check_source-known :
    (v : Value) {s : String} → check_source v ≡ ok s → contains s text_sources ≡ true
unfolding check_source
check_source-known v h = ground arith

pub check_audio_state-known :
    (v : Value) {o : Option String} → check_audio_state v ≡ ok o → Maybe IsAudioState o
unfolding check_audio_state
check_audio_state-known v {o = none} h = tt
check_audio_state-known v {o = some s} h = ground arith

pub check_battery-in_range : (v : Value) {o : Option ℤ} → check_battery v ≡ ok o → Maybe IsBattery o
unfolding check_battery
check_battery-in_range v {o = none} h = tt
check_battery-in_range v {o = some n} h = ground arith

pub check_rssi-in_range : (v : Value) {o : Option ℤ} → check_rssi v ≡ ok o → Maybe IsRssi o
unfolding check_rssi
check_rssi-in_range v {o = none} h = tt
check_rssi-in_range v {o = some n} h = ground arith
