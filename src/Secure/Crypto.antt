-- ===== src/Secure/Crypto.antt =====
-- What windows-agent/secure_session.py uses of the package `cryptography`: Ed25519, X25519, SHA-256,
-- HKDF and ChaCha20-Poly1305. The functions are arguments of the model.
use pipa_personal_assistant.Prelude.{◌+◌, ◌≡◌, Bool, true, Option, some, length, All}
use pipa_personal_assistant.Prelude.Bytes.{Bytes, IsByte}

pub record Crypto : Type 1 where
  pub SigningKey : Type 0
  pub VerifyKey : Type 0
  pub ExchangeKey : Type 0
  pub verify_key : SigningKey → VerifyKey
  pub sign : SigningKey → Bytes → Bytes
  -- the key, the signature and the signed bytes; false is `InvalidSignature`
  pub verify : VerifyKey → Bytes → Bytes → Bool
  pub public_bytes : ExchangeKey → Bytes
  -- `key.exchange(X25519PublicKey.from_public_bytes(raw))`; `none` is a `ValueError`
  pub exchange : ExchangeKey → Bytes → Option Bytes
  pub sha256 : Bytes → Bytes
  -- 72 bytes from the shared secret, the salt and the info
  pub hkdf : Bytes → Bytes → Bytes → Bytes
  -- the key, the nonce, the text and the additional data; `none` is `InvalidTag`
  pub encrypt : Bytes → Bytes → Bytes → Bytes → Bytes
  pub decrypt : Bytes → Bytes → Bytes → Bytes → Option Bytes

-- The documented behaviour: a signature verifies, the two ends of an exchange get one secret, the
-- sizes are those of the algorithms, decryption undoes encryption, and what decrypts is what
-- encryption makes, since both the stream and the tag are determined.
pub record IsSound (c : Crypto) : Type 0 where
  pub verify-sign : (k : c.SigningKey) (m : Bytes) → c.verify (c.verify_key k) (c.sign k m) m ≡ true
  pub sign-bytes : (k : c.SigningKey) (m : Bytes) → All IsByte (c.sign k m)
  pub sign-length : (k : c.SigningKey) (m : Bytes) → length (c.sign k m) ≡ 64
  pub public-bytes : (k : c.ExchangeKey) → All IsByte (c.public_bytes k)
  pub public-length : (k : c.ExchangeKey) → length (c.public_bytes k) ≡ 32
  pub exchange-agrees :
      (a b : c.ExchangeKey) → c.exchange a (c.public_bytes b) ≡ c.exchange b (c.public_bytes a)
  pub exchange-length : (k : c.ExchangeKey) (p s : Bytes) → c.exchange k p ≡ some s → length s ≡ 32
  pub sha256-length : (m : Bytes) → length (c.sha256 m) ≡ 32
  pub hkdf-length : (s salt info : Bytes) → length (c.hkdf s salt info) ≡ 72
  pub encrypt-bytes : (k n p a : Bytes) → All IsByte p → All IsByte (c.encrypt k n p a)
  pub decrypt-bytes : (k n t a p : Bytes) → All IsByte t → c.decrypt k n t a ≡ some p → All IsByte p
  pub encrypt-length : (k n p a : Bytes) → length (c.encrypt k n p a) ≡ length p + 16
  pub decrypt-encrypt : (k n p a : Bytes) → c.decrypt k n (c.encrypt k n p a) a ≡ some p
  pub encrypt-decrypt : (k n t a p : Bytes) → c.decrypt k n t a ≡ some p → c.encrypt k n p a ≡ t
