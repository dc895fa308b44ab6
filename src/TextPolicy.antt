-- ===== src/TextPolicy.antt =====
-- windows-agent/tools/text_policy.py: the bounds on text that enters an adapter.
use pipa_personal_assistant.Prelude.{
  ℕ, ltb, between, nat_eq, String, Bool, ◌&&◌, ◌||◌, not, Result, ok, err, ◌>>◌, require,
}
use pipa_personal_assistant.Prelude.Text.{is_empty, every, strip}
use pipa_personal_assistant.Json.{Value, str}
use pipa_personal_assistant.Json.Encode.{utf8_len}

-- the three `ValueError`s, less the name of the field
pub data TextError : Type 0 where
  empty too_long forbidden_character : TextError

unfoldable pub is_forbidden : Bool → ℕ → Bool
is_forbidden allow_line_feed c =
    (ltb c 0x20 && not (allow_line_feed && nat_eq c 0x0A))
    || between 0x7F 0x9F c
    || between 0x200B 0x200F c
    || between 0x202A 0x202E c
    || between 0x2060 0x2069 c
    || nat_eq c 0xFEFF
    || between 0xE000 0xF8FF c

-- `validate_bounded_text(value, …, maximum_bytes, allow_line_feed=…)`
unfoldable pub validate_bounded_text : ℕ → Bool → Value → Result TextError String
validate_bounded_text maximum_bytes allow_line_feed (str s) = do
  require (not (is_empty (strip s))) empty
  require (not (nat_eq maximum_bytes 0 || ltb maximum_bytes (utf8_len s))) too_long
  require (every (λ c. not (is_forbidden allow_line_feed c)) s) forbidden_character
  ok s
validate_bounded_text maximum_bytes allow_line_feed _ = err empty
