-- ===== src/Secure/Handshake/Total.antt =====
-- The checks of the handshake that well-formed fields pass.
use pipa_personal_assistant.Prelude.{
  ℕ, zero, suc, ◌≤◌, ◌≡◌, refl, String, true, false, some, [], ◌∷◌, ok, arith, length, take, drop,
  length-drop, All,
}
use pipa_personal_assistant.Prelude.Bytes.{Bytes, IsByte, replicate}
use pipa_personal_assistant.Secure.Base64.{
  encode, decode, decode_sized, decode_values, sextets, sextet, unpack, letter,
}
use pipa_personal_assistant.Secure.Base64.RoundTrip.{decode_sized-encode}
use pipa_personal_assistant.Secure.Session.{SecureSession, is_identifier, new_session}
use pipa_personal_assistant.Secure.Hello.{
  ClientHello, ServerHello, decode_field, validate_handshake_fields, check_client_hello,
  check_server_hello,
}
use pipa_personal_assistant.Secure.Handshake.{
  placeholder_signature, Role, client, server, keyed_session,
}

length-take : (n : ℕ) (xs : Bytes) → n ≤ length xs → length (take n xs) ≡ n
length-take zero xs h = refl
length-take (suc n) [] h = omega arith
length-take (suc n) (x ∷ xs) h = omega (arith, length-take n xs)

new_session_total :
    (id : String) (sk rk sp rp : Bytes)
    → length sk ≡ 32
    → length rk ≡ 32
    → length sp ≡ 4
    → length rp ≡ 4
    → (s : SecureSession) × (new_session id sk rk sp rp ≡ some s)
unfolding new_session
new_session_total id sk rk sp rp a b d e = (
  record {
    session_id = id;
    send_key = sk;
    receive_key = rk;
    send_nonce_prefix = sp;
    receive_nonce_prefix = rp;
    send_sequence = 0;
    receive_sequence = 0;
    closed = false;
  },
  rw (a, b, d, e),
)

pub keyed_total :
    (role : Role) (id : String) (m : Bytes)
    → length m ≡ 72
    → (s : SecureSession) × (keyed_session role id m ≡ ok s)
unfolding keyed_session
keyed_total client id m h =
    let (s, e) =
      new_session_total id (take 32 m) (take 32 (drop 32 m)) (take 4 (drop 64 m)) (drop 68 m)
        (length-take 32 m (omega (arith, h)))
        (length-take 32 (drop 32 m) (omega (arith, length-drop 32 m, h)))
        (length-take 4 (drop 64 m) (omega (arith, length-drop 64 m, h)))
        (omega (arith, length-drop 68 m, h)) in
    (s, rw (e, keyed_session))
keyed_total server id m h =
    let (s, e) =
      new_session_total id (take 32 (drop 32 m)) (take 32 m) (drop 68 m) (take 4 (drop 64 m))
        (length-take 32 (drop 32 m) (omega (arith, length-drop 32 m, h)))
        (length-take 32 m (omega (arith, h))) (omega (arith, length-drop 68 m, h))
        (length-take 4 (drop 64 m) (omega (arith, length-drop 64 m, h))) in
    (s, rw (e, keyed_session))

pub decode_field-encode :
    (n : ℕ) (bs : Bytes)
    → All IsByte bs
    → length bs ≡ n
    → 1 ≤ n
    → decode_field n (encode bs) ≡ ok bs
unfolding decode_field
decode_field-encode n bs b l p = rw (decode_sized-encode n bs b l p, decode_field)

pub check_client_total :
    (h : ClientHello) (k n g : Bytes)
    → h.protocol_version ≡ 2
    → is_identifier h.session_id ≡ true
    → is_identifier h.client_id ≡ true
    → decode_field 32 h.client_ephemeral_public_key ≡ ok k
    → decode_field 32 h.client_nonce ≡ ok n
    → decode_field 64 h.signature ≡ ok g
    → check_client_hello h ≡ ok tt
unfolding check_client_hello validate_handshake_fields
check_client_total h k n g a b d e f i = ground arith

pub check_server_total :
    (h : ServerHello) (k n q m g : Bytes)
    → h.protocol_version ≡ 2
    → is_identifier h.session_id ≡ true
    → is_identifier h.client_id ≡ true
    → is_identifier h.server_id ≡ true
    → decode_field 32 h.client_ephemeral_public_key ≡ ok k
    → decode_field 32 h.client_nonce ≡ ok n
    → decode_field 32 h.server_ephemeral_public_key ≡ ok q
    → decode_field 32 h.server_nonce ≡ ok m
    → decode_field 64 h.signature ≡ ok g
    → check_server_hello h ≡ ok tt
unfolding check_server_hello validate_handshake_fields
check_server_total h k n q m g a b c d e f i j l = ground arith

pub placeholder_decodes : decode_field 64 placeholder_signature ≡ ok (replicate 64 0)
unfolding decode_field decode_sized decode decode_values sextets sextet unpack encode letter
placeholder_decodes = refl
