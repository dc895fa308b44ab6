-- ===== src/Secure/Session/Channel/Refines.antt =====
-- The two sessions and the network behave as the queue.
use pipa_personal_assistant.Prelude.{
  ℕ, ◌+◌, ◌≤◌, nat_eq, nat_eq_iff, false, none, some, List, [], ◌∷◌, length, get_elem?, ◌≡◌, refl,
  ap, ◌∙◌, arith, All, Bool-cases, Option-cases, inl, inr, get_elem?-lt, All-get_elem?,
}
use pipa_personal_assistant.Prelude.Bytes.{Bytes, IsByte}
use pipa_personal_assistant.Secure.Crypto.{Crypto, IsSound}
use pipa_personal_assistant.Secure.Session.{
  max_additional_data_bytes, max_sequence, SecureSession, seal, open_frame,
}
use pipa_personal_assistant.Secure.Session.Opening.{opened_iff}
use mathlib.Core.Path.{ap₂}
use pipa_personal_assistant.Secure.Session.Channel.{
  Op, send, deliver, Link, Fifo, spec_step, spec_run, link_step, link_run, get_elem?-frames_none,
  get_elem?-frames_some,
}
use pipa_personal_assistant.Secure.Session.Channel.Holding.{
  IsPeer, SendsBytes, Holds, IsPayload, has_room, may_seal, may_not_seal, sent_Holds, frame_of,
  frame_of-IsNext, opened_replay,
}

module _ (c : Crypto) (a : Bytes) where
  module _ (sound : IsSound c) (bounded : length a ≤ max_additional_data_bytes) where
    send_refines :
        (p : Bytes) (l : Link) (q : Fifo)
        → All IsByte p
        → Holds c a l q
        → ((link_step c a l (send p)).0 ≡ (spec_step q (send p)).0)
          × Holds c a (link_step c a l (send p)).1 (spec_step q (send p)).1
    unfolding link_step seal spec_step
    send_refines p l q b v = elim (Bool-cases (has_room c a q p)) [
      | inl e ↦ rw (may_seal c a p l q bounded v e, e, seal) (refl, sent_Holds c a p l q v b e)
      | inr e ↦ let (x, f) = may_not_seal c a p l q bounded v e in rw (f, e, seal) (refl, v)
    ]

    received_Holds :
        (l : Link) (q : Fifo)
        → Holds c a l q
        → Holds c a
            (record l {
              receiver = record l.receiver { receive_sequence = l.receiver.receive_sequence + 1 };
            })
            (record q { taken = q.taken + 1 })
    received_Holds l q v = record {
      peer = record { session = v.peer.session; key = v.peer.key; prefix = v.peer.prefix };
      sender_open = v.sender_open;
      receiver_open = v.receiver_open;
      sent_count = v.sent_count;
      taken_count = omega (arith, v.taken_count);
      frames = v.frames;
      short = v.short;
      fits = v.fits;
    }

    deliver_refines :
        (i : ℕ) (l : Link) (q : Fifo)
        → Holds c a l q
        → ((link_step c a l (deliver i)).0 ≡ (spec_step q (deliver i)).0)
          × Holds c a (link_step c a l (deliver i)).1 (spec_step q (deliver i)).1
    unfolding link_step open_frame spec_step
    deliver_refines i l q v = elim (Option-cases (get_elem? q.items i)) [
      | inl e ↦
          let none_sent : get_elem? l.sent i ≡ none =
            ap (λ fs. get_elem? fs i) v.frames ∙ get_elem?-frames_none c a _ _ _ 0 i q.items e in
          rw (none_sent, e, link_step, spec_step) (refl, v)
      | inr (p, e) ↦
          let was_sent : get_elem? l.sent i ≡ some (frame_of c a l i p) =
            ap (λ fs. get_elem? fs i) v.frames
            ∙ get_elem?-frames_some c a _ _ _ 0 i i q.items (omega arith) e in
          let short = All-get_elem? IsPayload q.items i v.short e in
          let fits : i ≤ max_sequence = omega (arith, get_elem?-lt q.items i e, v.fits) in
          elim (Bool-cases (nat_eq i q.taken)) [
            | inl t ↦
                let same : i ≡ l.receiver.receive_sequence =
                  omega (arith, (nat_eq_iff i q.taken).0 t, v.taken_count) in
                let opens =
                  (opened_iff c sound (frame_of c a l i p) a l.receiver p).1
                    (v.receiver_open, frame_of-IsNext c a l q p bounded v short fits same) in
                rw (was_sent, e, opens, t, link_step, spec_step) (refl, received_Holds l q v)
            | inr t ↦
                let repeated = opened_replay c a l q p i v fits (rw v.taken_count t) in
                rw (was_sent, e, repeated, t, link_step, spec_step) (refl, v)
          ]
    ]

    step_refines :
        (o : Op) (l : Link) (q : Fifo)
        → SendsBytes o
        → Holds c a l q
        → ((link_step c a l o).0 ≡ (spec_step q o).0)
          × Holds c a (link_step c a l o).1 (spec_step q o).1
    step_refines (send p) l q b v = send_refines p l q b v
    step_refines (deliver i) l q b v = deliver_refines i l q v

    run_refines :
        (os : List Op) (l : Link) (q : Fifo)
        → All SendsBytes os
        → Holds c a l q
        → link_run c a l os ≡ spec_run q os
    unfolding link_run spec_run
    run_refines [] l q b v = refl
    run_refines (o ∷ os) l q b v =
        let both = step_refines o l q b.0 v in
        ap₂ ◌∷◌ both.0 (run_refines os (link_step c a l o).1 (spec_step q o).1 b.1 both.1)

    -- Two new sessions that are peers, joined by a network that loses, repeats and reorders what
    -- was sent, answer every sequence of sends of bytes and deliveries as a queue does: each accepted payload
    -- is received once and in order, every other delivery is rejected, and a send is refused only
    -- if the payload exceeds 65536 bytes or 2 ^ 64 were sent.
    pub link_refines :
        (s r : SecureSession) (os : List Op)
        → All SendsBytes os
        → IsPeer s r
        → s.closed ≡ false
        → r.closed ≡ false
        → s.send_sequence ≡ 0
        → r.receive_sequence ≡ 0
        → link_run c a (record { sender = s; receiver = r; sent = [] }) os
          ≡ spec_run (record { items = []; taken = 0 }) os
    link_refines s r os b peer s_open r_open s_new r_new = run_refines os _ _ b (record {
      peer = peer;
      sender_open = s_open;
      receiver_open = r_open;
      sent_count = s_new;
      taken_count = r_new;
      frames = refl;
      short = tt;
      fits = omega arith;
    })
