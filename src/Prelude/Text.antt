-- ===== src/Prelude/Text.antt =====
-- Python's `str`, over the native texts: length in code points, `strip`, and tests on characters.
pub mod Laws
use Prim.Native.Nat.{ℕ, zero, suc, ◌/◌, ◌%◌}
use Prim.Native.Char.{code}
use Prim.Native.String.{String, ◌++◌}
use mathlib.Core.Path.{◌≡◌, refl}
use mathlib.Core.Bool.{Bool, true, false, ◌&&◌, ◌||◌}
use pipa_personal_assistant.Prelude.Tests.{ltb, nat_eq, between, if◌then◌else◌}

-- `len(s)`
unfoldable pub len : String → ℕ
len String.[] = 0
len (String.◌∷◌ c s) = suc (len s)

-- `s == ""`
abbrev pub is_empty : String → Bool
is_empty String.[] = true
is_empty (String.◌∷◌ c s) = false

-- `all(p(ord(c)) for c in s)`
unfoldable pub every : (ℕ → Bool) → String → Bool
every p String.[] = true
every p (String.◌∷◌ c s) = p (code c) && every p s

-- `str.isspace` of one character
unfoldable pub is_space : ℕ → Bool
is_space c =
    between 0x09 0x0D c
    || between 0x1C 0x20 c
    || nat_eq c 0x85
    || nat_eq c 0xA0
    || nat_eq c 0x1680
    || between 0x2000 0x200A c
    || between 0x2028 0x2029 c
    || nat_eq c 0x202F
    || nat_eq c 0x205F
    || nat_eq c 0x3000

unfoldable pub lstrip : String → String
unfolding is_space
lstrip String.[] = String.[]
lstrip (String.◌∷◌ c s) = let rest = lstrip s in if is_space (code c) then rest else String.◌∷◌ c s

unfoldable pub rstrip : String → String
unfolding is_space
rstrip String.[] = String.[]
rstrip (String.◌∷◌ c s) =
    let rest = rstrip s in
    if is_empty rest && is_space (code c) then String.[] else String.◌∷◌ c rest

-- `s.strip()`
unfoldable pub strip : String → String
unfolding lstrip rstrip
strip s = rstrip (lstrip s)

-- `s[:n]`
unfoldable pub prefix : ℕ → String → String
prefix zero s = String.[]
prefix (suc n) String.[] = String.[]
prefix (suc n) (String.◌∷◌ c s) = String.◌∷◌ c (prefix n s)

-- `a + b`
abbrev pub join : String → String → String
join a b = a ++ b

digit : ℕ → String
digit n =
    if nat_eq n 0
    then "0"
    else if nat_eq n 1
    then "1"
    else if nat_eq n 2
    then "2"
    else if nat_eq n 3
    then "3"
    else if nat_eq n 4
    then "4"
    else if nat_eq n 5
    then "5"
    else if nat_eq n 6
    then "6"
    else if nat_eq n 7
    then "7"
    else if nat_eq n 8
    then "8"
    else "9"

-- one digit for each round; a number has at most one digit more than its value
digits : ℕ → ℕ → String → String
digits zero n acc = acc
digits (suc f) n acc =
    let rest = digits f (n / 10) (join (digit (n % 10)) acc) in
    if ltb n 10 then join (digit n) acc else rest

-- `str(n)`, for a natural number
unfoldable pub decimal : ℕ → String
unfolding digit digits
decimal n = digits (suc n) n ""

decimal_runs : decimal 1024 ≡ "1024"
unfolding decimal
decimal_runs = refl
