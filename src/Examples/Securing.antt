-- ===== src/Examples/Securing.antt =====
-- The theorems on the secure session, applied to small keys: a cipher that only adds a tag of 16
-- zeroes, an exchange whose secret is constant, and signatures that always verify.
use pipa_personal_assistant.Prelude.{
  ◌<◌, subst, ℕ, zero, suc, ◌%◌, ◌≡◌, ◌≢◌, ◌↔◌, refl, true, false, Option, none, some, [], ◌∷◌,
  ◌++◌, if◌then◌else◌, length, All, All-append, ok, arith, nat_eq, ap, sym,
}
use pipa_personal_assistant.Prelude.Bytes.{Bytes, IsByte, replicate}
use pipa_personal_assistant.Json.{dict, Fields, get_field}
use pipa_personal_assistant.Secure.Crypto.{Crypto, IsSound}
use pipa_personal_assistant.Secure.Base64.{
  encode, decode, decode_values, sextets, sextet, unpack, letter,
}
use pipa_personal_assistant.Secure.Base64.RoundTrip.{decode_iff}
use pipa_personal_assistant.Secure.Session.{
  SecureSession, frame, equals_version, equals_text, as_sequence, decode_record, check_seal,
  check_frame, check_plaintext, sealed, seal, opened, open_frame,
}
use pipa_personal_assistant.Secure.Session.Opening.{IsNext, opened_iff}
use pipa_personal_assistant.Secure.Session.Channel.{
  send, deliver, accepted, rejected, got, spec_step, spec_run, link_run,
}
use pipa_personal_assistant.Secure.Session.Channel.Refines.{link_refines}
use pipa_personal_assistant.Secure.Session.Nonces
use pipa_personal_assistant.Secure.Session.Nonces.{IsSealed, reads, nonce_once}

-- A tag of zeroes, and the text.
abbrev strip_tag : ℕ → Bytes → Option Bytes
strip_tag zero t = some t
strip_tag (suc n) [] = none
strip_tag (suc n) (b ∷ t) = if nat_eq b 0 then strip_tag n t else none

strip_tag-replicate : (n : ℕ) (p : Bytes) → strip_tag n (replicate n 0 ++ p) ≡ some p
strip_tag-replicate zero p = refl
strip_tag-replicate (suc n) p = strip_tag-replicate n p

strip_tag-some : (n : ℕ) (t p : Bytes) → strip_tag n t ≡ some p → replicate n 0 ++ p ≡ t
strip_tag-some zero t p h = cc
strip_tag-some (suc n) [] p h = cc
strip_tag-some (suc n) (b ∷ t) p h = ground (arith, strip_tag-some n t p)

All-replicate : (n b : ℕ) → b < 256 → All IsByte (replicate n b)
All-replicate zero b h = tt
All-replicate (suc n) b h = (h, All-replicate n b h)

length-replicate : (n b : ℕ) → length (replicate n b) ≡ n
length-replicate zero b = refl
length-replicate (suc n) b = ap suc (length-replicate n b)

strip_tag-bytes : (n : ℕ) (t p : Bytes) → All IsByte t → strip_tag n t ≡ some p → All IsByte p
strip_tag-bytes zero t p h e = subst (All IsByte) (cc) h
strip_tag-bytes (suc n) [] p h e = cc
strip_tag-bytes (suc n) (b ∷ t) p h e = ground (arith, strip_tag-bytes n t p h.1)

abbrev pub toy : Crypto
toy = record {
  SigningKey = ℕ;
  VerifyKey = ℕ;
  ExchangeKey = ℕ;
  verify_key = λ k. k;
  sign = λ k m. replicate 64 0;
  verify = λ k s m. true;
  public_bytes = λ k. (k % 256) ∷ replicate 31 0;
  exchange = λ k p. some (replicate 32 1);
  sha256 = λ m. replicate 32 0;
  hkdf = λ s salt info. replicate 72 0;
  encrypt = λ k n p a. replicate 16 0 ++ p;
  decrypt = λ k n t a. strip_tag 16 t;
}

pub toy-IsSound : IsSound toy
toy-IsSound = record {
  verify-sign = λ k m. refl;
  sign-bytes = λ k m. All-replicate 64 0 (omega arith);
  sign-length = λ k m. refl;
  public-bytes = λ k. (omega arith, All-replicate 31 0 (omega arith));
  public-length = λ k. refl;
  exchange-agrees = λ a b. refl;
  exchange-length = λ k p s e. let z : replicate 32 1 ≡ s = cc in ap length (sym z);
  sha256-length = λ m. refl;
  hkdf-length = λ s salt info. refl;
  encrypt-bytes =
      λ k n p a h. All-append IsByte (replicate 16 0) p (All-replicate 16 0 (omega arith)) h;
  decrypt-bytes = λ k n t a p h e. strip_tag-bytes 16 t p h e;
  encrypt-length = λ k n p a. omega arith;
  decrypt-encrypt = λ k n p a. strip_tag-replicate 16 p;
  encrypt-decrypt = λ k n t a p e. strip_tag-some 16 t p e;
}

abbrev four_bytes : Bytes
four_bytes = 1 ∷ 2 ∷ 3 ∷ 255 ∷ []

decode_iff_example :
    (decode "AQID_w" ≡ ok four_bytes)
    ↔ (("AQID_w" ≡ encode four_bytes) × All IsByte four_bytes × (four_bytes ≢ []))
decode_iff_example = decode_iff "AQID_w" four_bytes

-- a session whose keys are zeroes, and which has sent and received nothing
abbrev pub quiet : SecureSession
quiet = record {
  session_id = "s";
  send_key = replicate 32 0;
  receive_key = replicate 32 0;
  send_nonce_prefix = replicate 4 0;
  receive_nonce_prefix = replicate 4 0;
  send_sequence = 0;
  receive_sequence = 0;
  closed = false;
}

abbrev greeting : Fields
greeting = frame "s" 0 (replicate 16 0 ++ 104 ∷ 105 ∷ [])

opened_iff_example :
    (opened toy (dict greeting) [] quiet ≡ ok (104 ∷ 105 ∷ []))
    ↔ ((quiet.closed ≡ false) × IsNext toy greeting [] quiet (104 ∷ 105 ∷ []))
opened_iff_example = opened_iff toy toy-IsSound greeting [] quiet (104 ∷ 105 ∷ [])

link_refines_example :
    link_run toy []
      (record { sender = quiet; receiver = quiet; sent = [] })
      (send (104 ∷ []) ∷ send (105 ∷ []) ∷ deliver 1 ∷ deliver 0 ∷ deliver 0 ∷ [])
    ≡ spec_run
        (record { items = []; taken = 0 })
        (send (104 ∷ []) ∷ send (105 ∷ []) ∷ deliver 1 ∷ deliver 0 ∷ deliver 0 ∷ [])
link_refines_example =
    link_refines toy [] toy-IsSound (omega arith) quiet quiet
      (send (104 ∷ []) ∷ send (105 ∷ []) ∷ deliver 1 ∷ deliver 0 ∷ deliver 0 ∷ []) (omega arith)
      (record { session = refl; key = refl; prefix = refl }) refl refl refl refl

-- what the queue answers: only the second delivery is new and in order
queue_answers :
    spec_run
      (record { items = []; taken = 0 })
      (send (104 ∷ []) ∷ send (105 ∷ []) ∷ deliver 1 ∷ deliver 0 ∷ deliver 0 ∷ [])
    ≡ accepted ∷ accepted ∷ rejected ∷ got (104 ∷ []) ∷ rejected ∷ []
unfolding spec_run spec_step
queue_answers = refl

sealed_once : (seal toy (104 ∷ []) [] quiet).0 ≡ ok (frame "s" 0 (replicate 16 0 ++ 104 ∷ []))
unfolding seal check_seal sealed
sealed_once = refl

abbrev after_greeting : SecureSession
after_greeting = Nonces.run toy (seal toy (104 ∷ []) [] quiet).1 (reads (dict greeting) [] ∷ [])

sealed_again :
    (seal toy (105 ∷ []) [] after_greeting).0 ≡ ok (frame "s" 1 (replicate 16 0 ++ 105 ∷ []))
unfolding seal check_seal sealed Nonces.run Nonces.step open_frame opened check_frame frame
    get_field equals_version equals_text as_sequence decode_record decode decode_values sextets
    sextet unpack encode letter check_plaintext
sealed_again = refl

nonce_once_example :
    let key = quiet.send_key in
    (n : Bytes) × (m : Bytes) × IsSealed toy
      (frame "s" 0 (replicate 16 0 ++ 104 ∷ []))
      key
      n
      (104 ∷ [])
      []
    × IsSealed toy (frame "s" 1 (replicate 16 0 ++ 105 ∷ [])) key m (105 ∷ []) []
    × (n ≢ m)
nonce_once_example =
    nonce_once toy (104 ∷ []) [] (105 ∷ []) [] quiet (reads (dict greeting) [] ∷ []) sealed_once
      sealed_again
