-- ===== src/Tickets/Issuing.antt =====
-- What a ticket stands for.
use pipa_personal_assistant.Prelude.{
  ℕ, ◌+◌, ◌≤◌, ◌<◌, ◌≡◌, refl, String, some, ok, arith, eq_iff, eq_refl, Result-cases, inl, inr, ap,
  ◌∙◌, subst,
}
use pipa_personal_assistant.Prelude.Dict.{lookup}
use pipa_personal_assistant.Prelude.Dict.Laws.{lookup-insert}
use pipa_personal_assistant.TrustedUnlock.Data.{VerifiedAuthorization}
use pipa_personal_assistant.Tickets.{
  IssuedTicket, TicketIssuer, unlock_operation, max_ticket_ttl_seconds, prune, check_issue,
  new_ticket, issue,
}

-- What an issued ticket promises of the authorization: it is to unlock, the ticket is for its
-- device and operation, and ends in 1 to 10 seconds and never after the authorization.
pub record IsTicketOf (now : ℕ) (a : VerifiedAuthorization) (t : IssuedTicket) : Type 0 where
  pub unlocks : a.operation ≡ unlock_operation
  pub device : t.device_id ≡ a.device_id
  pub operation : t.operation ≡ a.operation
  pub begins : t.issued_at ≡ now
  pub lasting : now < t.expires_at
  pub short : t.expires_at ≤ now + max_ticket_ttl_seconds
  pub within : t.expires_at ≤ a.expires_at

new_ticket-IsTicketOf :
    (now ttl : ℕ) (token : String) (a : VerifiedAuthorization)
    → check_issue now ttl a ≡ ok tt
    → IsTicketOf now a (new_ticket now ttl token a)
unfolding check_issue new_ticket
new_ticket-IsTicketOf now ttl token a h = record {
  unlocks = ground (arith, eq_iff a.operation unlock_operation);
  device = refl;
  operation = refl;
  begins = refl;
  lasting = ground arith;
  short = ground arith;
  within = ground arith;
}

issued :
    (now ttl : ℕ) (token : String) (a : VerifiedAuthorization) (i : TicketIssuer) {t : IssuedTicket}
    → (issue now ttl token a i).0 ≡ ok t
    → (check_issue now ttl a ≡ ok tt)
      × (new_ticket now ttl token a ≡ t)
      × (lookup token (issue now ttl token a i).1.tickets ≡ some (new_ticket now ttl token a))
unfolding issue
issued now ttl token a i h = elim (Result-cases (check_issue now ttl a)) [
  | inl (_, e) ↦ (
    e,
    ground (arith, e),
    rw (e, issue)
        (ground (
          arith,
          lookup-insert token token (new_ticket now ttl token a) (prune now i).tickets,
          eq_refl token,
        )),
  )
  | inr (_, e) ↦ absurd (ground (arith, e))
]

-- An issued ticket stands under its token, and is a ticket of its authorization: to unlock, for the
-- same device and operation, valid from now for at most 10 seconds, and not longer than the
-- authorization.
pub issue-IsTicketOf :
    (now ttl : ℕ) (token : String) (a : VerifiedAuthorization) (i : TicketIssuer) {t : IssuedTicket}
    → (issue now ttl token a i).0 ≡ ok t
    → (lookup token (issue now ttl token a i).1.tickets ≡ some t) × IsTicketOf now a t
issue-IsTicketOf now ttl token a i h =
    let parts = issued now ttl token a i h in
    (
      parts.2 ∙ ap some parts.1,
      subst (IsTicketOf now a) parts.1 (new_ticket-IsTicketOf now ttl token a parts.0),
    )
