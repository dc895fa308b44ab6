-- ===== src/Secure/Session/Channel.antt =====
-- Two sessions joined by a network that may lose, repeat and reorder frames, against a queue that
-- hands over each item once and in order.
pub mod Holding
pub mod Refines
use pipa_personal_assistant.Prelude.{
  ℕ, zero, suc, ◌+◌, ◌≤◌, ltb, leb, nat_eq, nat_eq_iff, String, Bool, true, false, ◌&&◌, not,
  Option, none, some, List, [], ◌∷◌, ◌++◌, if◌then◌else◌, length, get_elem?, Result, ok, err, ◌≡◌,
  refl, sym, ap, ◌∙◌, arith, All, Bool-cases, Option-cases, Result-cases, inl, inr, subst,
  length-append, All-append, get_elem?-lt, All-get_elem?,
}
use pipa_personal_assistant.Prelude.Int.{pos}
use pipa_personal_assistant.Prelude.Bytes.{Bytes}
use pipa_personal_assistant.Json.{dict, str, int, Fields, get_field}
use pipa_personal_assistant.Secure.Crypto.{Crypto, IsSound}
use pipa_personal_assistant.Secure.Session.{
  max_record_bytes, max_additional_data_bytes, max_sequence, SecureSession, RecordError, replay,
  nonce, header_data, frame, equals_version, equals_text, value_at, as_sequence, check_seal,
  check_frame, sealed, seal, opened, open_frame,
}
use pipa_personal_assistant.Secure.Session.Opening.{IsNext, opened_iff}

-- What the two ends and the network do: send a payload, and hand over the frame that was sent as
-- number `i`, whether or not it was handed over before.
pub data Op : Type 0 where
  send : Bytes → Op
  deliver : ℕ → Op

pub data Reply : Type 0 where
  accepted refused rejected lost : Reply
  got : Bytes → Reply

pub record Link : Type 0 where
  pub sender : SecureSession
  pub receiver : SecureSession
  pub sent : List Fields

-- The specification: a queue whose items are numbered, and how many were taken.
pub record Fifo : Type 0 where
  pub items : List Bytes
  pub taken : ℕ

unfoldable pub spec_step : Fifo → Op → Reply × Fifo
spec_step q (send p) =
    if leb (length p) max_record_bytes && leb (length q.items) max_sequence
    then (accepted, record q { items = q.items ++ (p ∷ []) })
    else (refused, q)
spec_step q (deliver i) = elim (get_elem? q.items i) [
  | none ↦ (lost, q)
  | some p ↦ if nat_eq i q.taken then (got p, record q { taken = q.taken + 1 }) else (rejected, q)
]

unfoldable pub spec_run : Fifo → List Op → List Reply
spec_run q [] = []
spec_run q (o ∷ os) = let (r, q') = spec_step q o in r ∷ spec_run q' os

module _ (c : Crypto) (a : Bytes) where
  abbrev sent_reply : Link → Result RecordError Fields × SecureSession → Reply × Link
  sent_reply l (ok f, s) = (accepted, record l { sender = s; sent = l.sent ++ (f ∷ []) })
  sent_reply l (err e, s) = (refused, record l { sender = s })

  abbrev opened_reply : Link → Result RecordError Bytes × SecureSession → Reply × Link
  opened_reply l (ok p, s) = (got p, record l { receiver = s })
  opened_reply l (err e, s) = (rejected, record l { receiver = s })

  unfoldable pub link_step : Link → Op → Reply × Link
  link_step l (send p) = sent_reply l (seal c p a l.sender)
  link_step l (deliver i) = elim (get_elem? l.sent i) [
    | none ↦ (lost, l)
    | some f ↦ opened_reply l (open_frame c (dict f) a l.receiver)
  ]

  unfoldable pub link_run : Link → List Op → List Reply
  link_run l [] = []
  link_run l (o ∷ os) = let (r, l') = link_step l o in r ∷ link_run l' os

module _ (c : Crypto) (a : Bytes) (id : String) (key prefix : Bytes) where
  -- the frame that sealing `p` at position `i` makes
  abbrev pub frame_at : ℕ → Bytes → Fields
  frame_at i p = frame id i (c.encrypt key (nonce prefix i) p (header_data id i a))

  abbrev pub frames_from : ℕ → List Bytes → List Fields
  frames_from i [] = []
  frames_from i (p ∷ ps) = frame_at i p ∷ frames_from (i + 1) ps

  pub frames_from-append :
      (i n : ℕ) (ps : List Bytes) (p : Bytes)
      → n ≡ i + length ps
      → frames_from i (ps ++ (p ∷ [])) ≡ frames_from i ps ++ (frame_at n p ∷ [])
  frames_from-append i n [] p e =
      let same : n ≡ i = omega arith in ap (λ k. frame_at k p ∷ []) (sym same)
  frames_from-append i n (q ∷ ps) p e =
      ap (λ fs. frame_at i q ∷ fs) (frames_from-append (i + 1) n ps p (omega arith))

  pub get_elem?-frames_none :
      (i n : ℕ) (ps : List Bytes) → get_elem? ps n ≡ none → get_elem? (frames_from i ps) n ≡ none
  get_elem?-frames_none i n [] h = refl
  get_elem?-frames_none i zero (q ∷ ps) h = cc
  get_elem?-frames_none i (suc n) (q ∷ ps) h = get_elem?-frames_none (i + 1) n ps h

  pub get_elem?-frames_some :
      (i n m : ℕ) (ps : List Bytes) {p : Bytes}
      → m ≡ i + n
      → get_elem? ps n ≡ some p
      → get_elem? (frames_from i ps) n ≡ some (frame_at m p)
  get_elem?-frames_some i n m [] e h = cc
  get_elem?-frames_some i zero m (q ∷ ps) {p} e h =
      let same : i ≡ m = omega arith in
      let item : q ≡ p = cc in
      ap (λ k. some (frame_at k q)) same ∙ ap (λ k. some (frame_at m k)) item
  get_elem?-frames_some i (suc n) m (q ∷ ps) e h =
      get_elem?-frames_some (i + 1) n m ps (omega arith) h
