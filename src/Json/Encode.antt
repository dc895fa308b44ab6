-- ===== src/Json/Encode.antt =====
-- `len(json.dumps(value, ensure_ascii=False, allow_nan=False, separators=(",", ":")).encode())`:
-- the size in UTF-8 bytes of the compact encoding; `none` where `dumps` raises on a float that is
-- not finite. Python's recursion limit is not modelled.
use Prim.Native.Char.{code}
use pipa_personal_assistant.Prelude.{
  ℕ, zero, suc, ◌+◌, ◌/◌, ltb, nat_eq, between, String, Bool, true, false, ◌||◌, Option, none, some,
  if◌then◌else◌,
}
use pipa_personal_assistant.Prelude.Int.{ℤ, pos, negsuc}
use pipa_personal_assistant.Json.{
  Value, null, bool, int, float, str, list, dict, Items, nil, cons, Fields, end, field,
}

-- bytes of one code point in UTF-8
unfoldable pub utf8_size : ℕ → ℕ
utf8_size c = if ltb c 0x80 then 1 else if ltb c 0x800 then 2 else if ltb c 0x10000 then 3 else 4

-- `len(value.encode("utf-8"))`
unfoldable pub utf8_len : String → ℕ
unfolding utf8_size
utf8_len String.[] = 0
utf8_len (String.◌∷◌ c s) = utf8_size (code c) + utf8_len s

-- bytes of one code point inside a JSON text: a quote, a backslash and \b \t \n \f \r are escaped by
-- two characters, any other control character by six
escaped_size : ℕ → ℕ
unfolding utf8_size
escaped_size c =
    if nat_eq c 0x22 || nat_eq c 0x5C || between 0x08 0x0A c || between 0x0C 0x0D c
    then 2
    else if ltb c 0x20
    then 6
    else utf8_size c

text_size : String → ℕ
unfolding escaped_size
text_size String.[] = 2
text_size (String.◌∷◌ c s) = escaped_size (code c) + text_size s

-- the decimal digits of `n`, which has at most `n + 1` of them
digit_count : ℕ → ℕ → ℕ
digit_count zero n = 1
digit_count (suc f) n = let rest = digit_count f (n / 10) in if ltb n 10 then 1 else suc rest

int_size : ℤ → ℕ
unfolding digit_count
int_size (pos n) = digit_count n n
int_size (negsuc n) = suc (digit_count (suc n) (suc n))

add_sizes : ℕ → Option ℕ → Option ℕ → Option ℕ
add_sizes extra (some m) (some n) = some (extra + m + n)
add_sizes extra _ _ = none

unfoldable mutual
  unfolding text_size int_size add_sizes

  pub encoded_size : Value → Option ℕ
  encoded_size null = some 4
  encoded_size (bool true) = some 4
  encoded_size (bool false) = some 5
  encoded_size (int n) = some (int_size n)
  encoded_size (float x) = if x.finite then some (utf8_len x.repr) else none
  encoded_size (str s) = some (text_size s)
  encoded_size (list nil) = some 2
  encoded_size (list (cons v vs)) = add_sizes 1 (encoded_size v) (tail_size vs)
  encoded_size (dict fs) = fields_size true fs

  -- after an item: a comma and the next one, or the closing bracket
  pub tail_size : Items → Option ℕ
  tail_size nil = some 1
  tail_size (cons v vs) = add_sizes 1 (encoded_size v) (tail_size vs)

  -- with the opening brace or a comma before each field, and the closing brace
  pub fields_size : Bool → Fields → Option ℕ
  fields_size first end = some (if first then 2 else 1)
  fields_size first (field k v fs) =
      add_sizes (2 + text_size k) (encoded_size v) (fields_size false fs)
