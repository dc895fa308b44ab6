-- ===== src/Secure/Base64.antt =====
-- `_encode` and `_decode` of windows-agent/secure_session.py: base64url with no padding.
pub mod Alphabet
pub mod RoundTrip
use Prim.Native.Char.{Char, code}
use text.Mathlib.TextEquality.{Char-path}
use pipa_personal_assistant.Prelude.{
  ℕ, zero, suc, ◌+◌, ◌*◌, ◌/◌, ◌%◌, ◌<◌, nat_eq, String, Option, none, some, List, [], ◌∷◌, ◌==◌,
  if◌then◌else◌, length, Result, ok, err, Bool, true, false, ◌≡◌, refl, arith, require, ◌>>◌, ◌>>=◌,
  Bool-cases, inl, inr, eq_iff, ◌↔◌, All, Option-cases,
}
use mathlib.Core.Option
use pipa_personal_assistant.Prelude.Text.{is_empty, every}
use pipa_personal_assistant.Prelude.Bytes.{Bytes, IsByte, codes}

abbrev pub alphabet : String
alphabet = "ABCDEFGHIJKLMNOPQRSTUVWXYZabcdefghijklmnopqrstuvwxyz0123456789-_"

-- the character at an index, and "A" past the end
letter_at : String → ℕ → Char
letter_at String.[] n = "A"
letter_at (String.◌∷◌ c s) zero = c
letter_at (String.◌∷◌ c s) (suc n) = letter_at s n

-- the index of a character
index_of : String → Char → Option ℕ
index_of String.[] c = none
index_of (String.◌∷◌ d s) c =
    if nat_eq (code d) (code c) then some 0 else Option.map suc (index_of s c)

unfoldable pub letter : ℕ → Char
unfolding letter_at
letter n = letter_at alphabet n

unfoldable pub sextet : Char → Option ℕ
unfolding index_of
sextet c = index_of alphabet c

-- `base64.urlsafe_b64encode(value).rstrip("=")`: three bytes make four characters, and what is left
-- two or three
unfoldable pub encode : Bytes → String
encode [] = String.[]
encode (a ∷ []) = String.◌∷◌ (letter (a / 4)) (String.◌∷◌ (letter (a % 4 * 16)) String.[])
encode (a ∷ b ∷ []) =
    String.◌∷◌ (letter (a / 4))
      (String.◌∷◌ (letter (a % 4 * 16 + b / 16)) (String.◌∷◌ (letter (b % 16 * 4)) String.[]))
encode (a ∷ b ∷ c ∷ rest) = String.◌∷◌ (letter (a / 4)) (
    String.◌∷◌ (letter (a % 4 * 16 + b / 16))
      (String.◌∷◌ (letter (b % 16 * 4 + c / 64)) (String.◌∷◌ (letter (c % 64)) (encode rest))))

-- the values of the characters; `none` if one is outside the alphabet
unfoldable pub sextets : String → Option (List ℕ)
sextets String.[] = some []
sextets (String.◌∷◌ c s) = elim (sextet c) [
  | none ↦ none
  | some n ↦ Option.map (λ ns. n ∷ ns) (sextets s)
]

-- `base64.urlsafe_b64decode(value + "=" * (-len(value) % 4))`, on the values of the characters: one
-- character that is left over is an error, and unused bits are dropped
unfoldable pub unpack : List ℕ → Option Bytes
unpack [] = some []
unpack (w ∷ []) = none
unpack (w ∷ x ∷ []) = some ((w * 4 + x / 16) ∷ [])
unpack (w ∷ x ∷ y ∷ []) = some ((w * 4 + x / 16) ∷ (x % 16 * 16 + y / 4) ∷ [])
unpack (w ∷ x ∷ y ∷ z ∷ rest) =
    Option.map (λ bs. (w * 4 + x / 16) ∷ (x % 16 * 16 + y / 4) ∷ (y % 4 * 64 + z) ∷ bs)
      (unpack rest)

pub data DecodeError : Type 0 where
  not_base64url not_valid not_canonical wrong_length : DecodeError

unfoldable pub decode_values : String → Option (List ℕ) → Result DecodeError Bytes
decode_values s none = err not_base64url
decode_values s (some ns) = elim (unpack ns) [
  | none ↦ err not_valid
  | some bs ↦ if encode bs == s then ok bs else err not_canonical
]

-- `_decode(value, …)`, on a text
unfoldable pub decode : String → Result DecodeError Bytes
unfolding decode_values
decode s = if is_empty s then err not_base64url else decode_values s (sextets s)

-- `_decode(value, …, expected_length=n)`
unfoldable pub decode_sized : ℕ → String → Result DecodeError Bytes
decode_sized n s = do bs ← decode s; require (nat_eq (length bs) n) wrong_length; ok bs

decode_runs : decode "AQID_w" ≡ ok (1 ∷ 2 ∷ 3 ∷ 255 ∷ [])
unfolding decode sextets sextet unpack encode letter index_of letter_at
decode_runs = refl

decode_refuses : decode "AQID_x" ≡ err not_canonical
unfolding decode sextets sextet unpack encode letter index_of letter_at
decode_refuses = refl
