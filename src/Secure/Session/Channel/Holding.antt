-- ===== src/Secure/Session/Channel/Holding.antt =====
-- When two sessions and the network between them hold the items of a queue, and what a send keeps.
use pipa_personal_assistant.Prelude.{
  ℕ, ◌+◌, ◌≤◌, leb, nat_eq, Bool, true, false, ◌&&◌, [], ◌∷◌, ◌++◌, length, ok, err, ◌≡◌, refl, sym,
  ap, ◌∙◌, arith, All, Result-cases, inl, inr, subst, length-append, All-append, eq_iff,
}
use pipa_personal_assistant.Prelude.Int.{pos}
use pipa_personal_assistant.Prelude.Bytes.{Bytes, IsByte}
use pipa_personal_assistant.Json.{dict, str, int, Fields, get_field}
use pipa_personal_assistant.Secure.Crypto.{Crypto}
use pipa_personal_assistant.Secure.Session.{
  max_record_bytes, max_additional_data_bytes, max_sequence, SecureSession, RecordError, replay,
  nonce, header_data, frame, equals_version, equals_text, as_sequence, check_seal, check_frame,
  sealed, opened,
}
use pipa_personal_assistant.Secure.Session.Opening.{IsNext, expected}
use pipa_personal_assistant.Secure.Base64.{encode}
use mathlib.Core.Path.{ap₂}
use pipa_personal_assistant.Secure.Session.Channel.{
  Op, send, deliver, Link, Fifo, frame_at, frames_from, frames_from-append,
}

-- `r` receives what `s` sends.
pub record IsPeer (s r : SecureSession) : Type 0 where
  pub session : r.session_id ≡ s.session_id
  pub key : r.receive_key ≡ s.send_key
  pub prefix : r.receive_nonce_prefix ≡ s.send_nonce_prefix

pub aligned :
    (c : Crypto) (a : Bytes) (s r : SecureSession) {i : ℕ}
    → i ≡ r.receive_sequence
    → IsPeer s r
    → (p : Bytes)
    → c.encrypt s.send_key (nonce s.send_nonce_prefix i) p (header_data s.session_id i a)
      ≡ expected c p a r
aligned c a s r {i} same v p =
    ap₂ (λ k n. c.encrypt k (nonce n i) p (header_data s.session_id i a)) (sym v.key) (sym v.prefix)
    ∙ ap₂ (λ j n. c.encrypt r.receive_key (nonce r.receive_nonce_prefix n) p (header_data j n a))
        (sym v.session) same

abbrev pub IsPayload : Bytes → Type 0
IsPayload p = All IsByte p × (length p ≤ max_record_bytes)

-- What is sent are bytes.
abbrev pub SendsBytes : Op → Type 0
SendsBytes (send p) = All IsByte p
SendsBytes (deliver i) = Unit

module _ (c : Crypto) (a : Bytes) where
  -- The link holds the queue.
  pub record Holds (l : Link) (q : Fifo) : Type 0 where
    pub peer : IsPeer l.sender l.receiver
    pub sender_open : l.sender.closed ≡ false
    pub receiver_open : l.receiver.closed ≡ false
    pub sent_count : l.sender.send_sequence ≡ length q.items
    pub taken_count : l.receiver.receive_sequence ≡ q.taken
    pub frames :
        l.sent
        ≡ frames_from c a l.sender.session_id l.sender.send_key l.sender.send_nonce_prefix 0 q.items
    pub short : All IsPayload q.items
    pub fits : length q.items ≤ max_sequence + 1

  -- whether the specification accepts the payload
  abbrev pub has_room : Fifo → Bytes → Bool
  has_room q p = leb (length p) max_record_bytes && leb (length q.items) max_sequence

  pub may_seal :
      (p : Bytes) (l : Link) (q : Fifo)
      → length a ≤ max_additional_data_bytes
      → Holds l q
      → has_room q p ≡ true
      → check_seal p a l.sender ≡ ok tt
  unfolding check_seal
  may_seal p l q h v e = ground (arith, v.sender_open, v.sent_count)

  pub may_not_seal :
      (p : Bytes) (l : Link) (q : Fifo)
      → length a ≤ max_additional_data_bytes
      → Holds l q
      → has_room q p ≡ false
      → (e : RecordError) × (check_seal p a l.sender ≡ err e)
  may_not_seal p l q h v e = elim (Result-cases (check_seal p a l.sender)) [
    | inr bad ↦ bad
    | inl (_, f) ↦ absurd (unfold check_seal in ground (arith, v.sender_open, v.sent_count))
  ]

  pub sent_Holds :
      (p : Bytes) (l : Link) (q : Fifo)
      → Holds l q
      → All IsByte p
      → has_room q p ≡ true
      → Holds
          (record l {
            sender = record l.sender { send_sequence = l.sender.send_sequence + 1 };
            sent =
                l.sent
                ++ (frame l.sender.session_id l.sender.send_sequence (sealed c p a l.sender) ∷ []);
          })
          (record q { items = q.items ++ (p ∷ []) })
  unfolding sealed
  sent_Holds p l q v b e = record {
    peer = record { session = v.peer.session; key = v.peer.key; prefix = v.peer.prefix };
    sender_open = v.sender_open;
    receiver_open = v.receiver_open;
    sent_count = omega (arith, v.sent_count, length-append q.items (p ∷ []));
    taken_count = v.taken_count;
    frames =
        ap
          (λ fs.
            fs ++ (frame l.sender.session_id l.sender.send_sequence (sealed c p a l.sender) ∷ []))
          v.frames
        ∙ sym (
            frames_from-append c a l.sender.session_id l.sender.send_key l.sender.send_nonce_prefix
              0 l.sender.send_sequence q.items p (omega (arith, v.sent_count)));
    short = All-append IsPayload q.items (p ∷ []) v.short ((b, ground arith), tt);
    fits = ground (arith, length-append q.items (p ∷ []));
  }

  -- the frame of the item `p` at position `i`
  abbrev pub frame_of : Link → ℕ → Bytes → Fields
  frame_of l i p = frame_at c a l.sender.session_id l.sender.send_key l.sender.send_nonce_prefix i p

  pub frame_of-IsNext :
      (l : Link) (q : Fifo) (p : Bytes) {i : ℕ}
      → length a ≤ max_additional_data_bytes
      → Holds l q
      → IsPayload p
      → i ≤ max_sequence
      → i ≡ l.receiver.receive_sequence
      → IsNext c (frame_of l i p) a l.receiver p
  unfolding frame get_field equals_version
  frame_of-IsNext l q p {i} h v short fits same = record {
    version = refl;
    session = ap str (sym v.peer.session);
    position = ap (λ n. int (pos n)) same;
    ciphertext = ap (λ (x : Bytes). str (encode x)) (aligned c a l.sender l.receiver same v.peer p);
    bytes = short.0;
    short = short.1;
    bounded = h;
    fits = subst (λ n. n ≤ max_sequence) same fits;
  }

  pub opened_replay :
      (l : Link) (q : Fifo) (p : Bytes) (i : ℕ)
      → Holds l q
      → i ≤ max_sequence
      → nat_eq i l.receiver.receive_sequence ≡ false
      → opened c (dict (frame_of l i p)) a l.receiver ≡ err replay
  unfolding opened check_frame frame get_field equals_version equals_text as_sequence
  opened_replay l q p i v fits other =
      ground
        (arith, v.receiver_open, v.peer.session, eq_iff l.sender.session_id l.receiver.session_id)
