-- ===== src/Secure/Base64/RoundTrip.antt =====
-- Base64url, there and back.
use Prim.Native.Char.{code}
use mathlib.Core.Option
use pipa_personal_assistant.Prelude.{
  not, ℕ, ◌+◌, ◌*◌, ◌/◌, ◌%◌, ◌<◌, nat_eq, String, Option, none, some, List, [], ◌∷◌, length, ok,
  true, false, ◌≡◌, ◌≢◌, refl, arith, Bool-cases, inl, inr, eq_iff, eq_refl, ◌↔◌, All, Option-cases,
  sym, ap, ◌∙◌, subst,
}
use pipa_personal_assistant.Prelude.Text.{is_empty, every}
use pipa_personal_assistant.Prelude.Bytes.{Bytes, IsByte}
use pipa_personal_assistant.Secure.Base64.{
  letter_at, letter, sextet, encode, sextets, unpack, decode_values, decode, decode_sized,
}
use pipa_personal_assistant.Secure.Base64.Alphabet.{
  each_from, each_value, sextet-letter, letter-sextet,
}

some_injective : {A : Type 0} {a b : A} → some a ≡ some b → a ≡ b
some_injective e = cc

-- the values of the characters that `encode` writes
pack : Bytes → List ℕ
pack [] = []
pack (a ∷ []) = (a / 4) ∷ (a % 4 * 16) ∷ []
pack (a ∷ b ∷ []) = (a / 4) ∷ (a % 4 * 16 + b / 16) ∷ (b % 16 * 4) ∷ []
pack (a ∷ b ∷ c ∷ rest) =
    (a / 4) ∷ (a % 4 * 16 + b / 16) ∷ (b % 16 * 4 + c / 64) ∷ (c % 64) ∷ pack rest

sextets-cons :
    (n : ℕ) (s : String)
    → n < 64
    → sextets (String.◌∷◌ (letter n) s) ≡ Option.map (λ ns. n ∷ ns) (sextets s)
unfolding sextets
sextets-cons n s h = rw (sextet-letter n h, sextets)

sextets-nil : sextets String.[] ≡ some []
unfolding sextets
sextets-nil = refl

sextets-encode : (bs : Bytes) → All IsByte bs → sextets (encode bs) ≡ some (pack bs)
unfolding encode pack
sextets-encode [] h = sextets-nil
sextets-encode (a ∷ []) h =
    simp
      (sextets-cons (a / 4) _ (omega arith), sextets-cons (a % 4 * 16) _ (omega arith), sextets-nil)
sextets-encode (a ∷ b ∷ []) h = simp (
  sextets-cons (a / 4) _ (omega arith),
  sextets-cons (a % 4 * 16 + b / 16) _ (omega arith),
  sextets-cons (b % 16 * 4) _ (omega arith),
  sextets-nil,
)
sextets-encode (a ∷ b ∷ c ∷ rest) h = simp (
  sextets-cons (a / 4) _ (omega arith),
  sextets-cons (a % 4 * 16 + b / 16) _ (omega arith),
  sextets-cons (b % 16 * 4 + c / 64) _ (omega arith),
  sextets-cons (c % 64) _ (omega arith),
  sextets-encode rest h.1.1.1,
)

cons_path : {a b : ℕ} {xs ys : Bytes} → a ≡ b → xs ≡ ys → a ∷ xs ≡ b ∷ ys
cons_path e f = cc

unpack-pack : (bs : Bytes) → All IsByte bs → unpack (pack bs) ≡ some bs
unfolding unpack pack
unpack-pack [] h = refl
unpack-pack (a ∷ []) h = ap some (cons_path (omega arith) refl)
unpack-pack (a ∷ b ∷ []) h = ap some (cons_path (omega arith) (cons_path (omega arith) refl))
unpack-pack (a ∷ b ∷ c ∷ rest) h =
    rw (unpack-pack rest h.1.1.1)
      (ap some (cons_path (omega arith) (cons_path (omega arith) (cons_path (omega arith) refl))))

-- What `sextets` yields is below 64.
sextets-lt : (s : String) {ns : List ℕ} → sextets s ≡ some ns → All (λ n. n < 64) ns
unfolding sextets
sextets-lt String.[] {ns} h = subst (All (λ n. n < 64)) (some_injective h) tt
sextets-lt (String.◌∷◌ c s) {ns} h = elim (Option-cases (sextet c)) [
  | inl e ↦ absurd (ground (arith, e))
  | inr (n, e) ↦ elim (Option-cases (sextets s)) [
    | inl f ↦ absurd (ground (arith, e, f))
    | inr (ms, f) ↦
        let z : n ∷ ms ≡ ns = ground (arith, e, f) in
        subst (All (λ n. n < 64)) z ((letter-sextet c e).1, sextets-lt s f)
  ]
]

unpack-IsByte :
    (ns : List ℕ) {bs : Bytes} → All (λ n. n < 64) ns → unpack ns ≡ some bs → All IsByte bs
unfolding unpack
unpack-IsByte [] h e = subst (All IsByte) (some_injective e) tt
unpack-IsByte (w ∷ []) h e = cc
unpack-IsByte (w ∷ x ∷ []) h e = subst (All IsByte) (some_injective e) (omega arith, tt)
unpack-IsByte (w ∷ x ∷ y ∷ []) h e =
    subst (All IsByte) (some_injective e) (omega arith, (omega arith, tt))
unpack-IsByte (w ∷ x ∷ y ∷ z ∷ rest) {bs} h e = elim (Option-cases (unpack rest)) [
  | inl f ↦ absurd (ground (arith, f))
  | inr (cs, f) ↦
      let z' : (w * 4 + x / 16) ∷ (x % 16 * 16 + y / 4) ∷ (y % 4 * 64 + z) ∷ cs ≡ bs =
        ground (arith, f) in
      subst (All IsByte) z'
        (omega arith, (omega arith, (omega arith, unpack-IsByte rest h.1.1.1.1 f)))
]

is_empty-encode : (bs : Bytes) → is_empty (encode bs) ≡ true → bs ≡ []
unfolding encode
is_empty-encode [] h = refl
is_empty-encode (a ∷ []) h = cc
is_empty-encode (a ∷ b ∷ []) h = cc
is_empty-encode (a ∷ b ∷ c ∷ rest) h = cc

encoded_values : (bs : Bytes) → All IsByte bs → decode_values (encode bs) (some (pack bs)) ≡ ok bs
unfolding decode_values
encoded_values bs h = rw (unpack-pack bs h, decode_values) (rw eq_refl)

-- Encoding and decoding give the bytes back, if there are any.
pub decode-encode : (bs : Bytes) → All IsByte bs → bs ≢ [] → decode (encode bs) ≡ ok bs
unfolding decode decode_values
decode-encode bs h n = elim (Bool-cases (is_empty (encode bs))) [
  | inl e ↦ absurd (n (is_empty-encode bs e))
  | inr e ↦ simp (e, sextets-encode bs h) (encoded_values bs h)
]

decoded :
    (s : String) (o : Option (List ℕ)) {bs : Bytes}
    → sextets s ≡ o
    → decode_values s o ≡ ok bs
    → (s ≡ encode bs) × All IsByte bs
unfolding decode_values
decoded s none f h = cc
decoded s (some ns) {bs} f h = elim (Option-cases (unpack ns)) [
  | inl e ↦ absurd (ground (arith, e))
  | inr (cs, e) ↦
      let g : (encode cs ≡ s) × (cs ≡ bs) = ground (arith, e, eq_iff (encode cs) s) in
      (sym (g.0) ∙ ap encode g.1, subst (All IsByte) g.1 (unpack-IsByte ns (sextets-lt s f) e))
]

text-ne-empty : (s : String) → is_empty s ≡ false → s ≢ String.[]
text-ne-empty s h e = let z : false ≡ true = sym h ∙ ap is_empty e in cc

decode_only_encoded :
    (s : String) (bs : Bytes) → decode s ≡ ok bs → (s ≡ encode bs) × All IsByte bs × (bs ≢ [])
unfolding decode encode
decode_only_encoded s bs h = elim (Bool-cases (is_empty s)) [
  | inl e ↦ absurd (ground (arith, e))
  | inr e ↦
      let both : (s ≡ encode bs) × All IsByte bs = decoded s (sextets s) refl (ground (arith, e)) in
      (both.0, both.1, λ z. text-ne-empty s e (both.0 ∙ ap encode z))
]

-- A text decodes to some bytes exactly when it is their encoding and there are any: each sequence
-- of bytes has one spelling, and every other text is refused.
pub decode_iff :
    (s : String) (bs : Bytes) → (decode s ≡ ok bs) ↔ ((s ≡ encode bs) × All IsByte bs × (bs ≢ []))
decode_iff s bs = (decode_only_encoded s bs, λ h. rw h.0 (decode-encode bs h.1 h.2))

pub decode_sized-encode :
    (n : ℕ) (bs : Bytes)
    → All IsByte bs
    → length bs ≡ n
    → 0 < n
    → decode_sized n (encode bs) ≡ ok bs
unfolding decode_sized
decode_sized-encode n bs h e p =
    let coded = decode-encode bs h (λ z. omega (arith, e, p, ap length z)) in
    rw coded (ground (arith, e))

pub decode_sized_ok :
    (n : ℕ) (s : String) {bs : Bytes}
    → decode_sized n s ≡ ok bs
    → (decode s ≡ ok bs) × (length bs ≡ n)
unfolding decode_sized
decode_sized_ok n s h = ground arith

plain_table : each_from (λ n. not (nat_eq (code (letter n)) b'"')) 0 64 ≡ true
unfolding each_from letter letter_at
plain_table = refl

-- A text that the alphabet spells holds no quote.
sextets-plain :
    (s : String) {ns : List ℕ} → sextets s ≡ some ns → every (λ c. not (nat_eq c b'"')) s ≡ true
unfolding sextets every
sextets-plain String.[] h = refl
sextets-plain (String.◌∷◌ c s) h = elim (Option-cases (sextet c)) [
  | inl e ↦ absurd (ground (arith, e))
  | inr (n, e) ↦ elim (Option-cases (sextets s)) [
    | inl f ↦ absurd (ground (arith, e, f))
    | inr (ms, f) ↦
        let (same, below) = letter-sextet c e in
        let plain : not (nat_eq (code c) b'"') ≡ true =
          subst (λ d. not (nat_eq (code d) b'"') ≡ true) same
            (each_value (λ n. not (nat_eq (code (letter n)) b'"')) n plain_table below) in
        rw plain (sextets-plain s f)
  ]
]

pub decode-plain :
    (s : String) {bs : Bytes} → decode s ≡ ok bs → every (λ c. not (nat_eq c b'"')) s ≡ true
unfolding decode decode_values
decode-plain s h = elim (Option-cases (sextets s)) [
  | inl e ↦ absurd (ground (arith, e))
  | inr (ns, e) ↦ sextets-plain s e
]
