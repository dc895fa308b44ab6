-- ===== src/Examples/Ticketing.antt =====
-- The theorems on tickets, applied to one authorization of a phone.
use pipa_personal_assistant.Prelude.{◌≡◌, ◌⊎◌, refl, some, [], ◌∷◌, ok, err}
use pipa_personal_assistant.Prelude.Dict.{lookup}
use pipa_personal_assistant.TrustedUnlock.Data.{VerifiedAuthorization}
use pipa_personal_assistant.Tickets.{
  IssuedTicket, TicketIssuer, ticket_replay, unknown_ticket, check_issue, new_ticket, issue,
  consume_found, consume, issues, run,
}
use pipa_personal_assistant.Tickets.Issuing.{IsTicketOf, issue-IsTicketOf}
use pipa_personal_assistant.Tickets.Once.{ticket_consumed_once}

abbrev phone_authorization : VerifiedAuthorization
phone_authorization = record {
  challenge_id = "c1";
  device_id = "phone";
  operation = "unlock";
  verified_at = 20;
  expires_at = 23;
}

abbrev no_tickets : TicketIssuer
no_tickets = record { tickets = []; consumed = [] }

abbrev ticket : IssuedTicket
ticket = record {
  token = "t";
  device_id = "phone";
  operation = "unlock";
  issued_at = 20;
  expires_at = 23;
}

abbrev one_ticket : TicketIssuer
one_ticket = record { tickets = ("t", ticket) ∷ []; consumed = [] }

issued_at_20 : (issue 20 5 "t" phone_authorization no_tickets).0 ≡ ok ticket
unfolding issue check_issue new_ticket
issued_at_20 = refl

consumed_at_21 : (consume 21 "t" "unlock" one_ticket).0 ≡ ok ticket
unfolding consume consume_found
consumed_at_21 = refl

issue-IsTicketOf_example :
    (lookup "t" (issue 20 5 "t" phone_authorization no_tickets).1.tickets ≡ some ticket)
    × IsTicketOf 20 phone_authorization ticket
issue-IsTicketOf_example = issue-IsTicketOf 20 5 "t" phone_authorization no_tickets issued_at_20

ticket_consumed_once_example :
    ((consume 22 "t" "unlock"
        (run (consume 21 "t" "unlock" one_ticket).1 (issues 21 5 "s" phone_authorization ∷ []))).0
      ≡ err ticket_replay)
    ⊎ ((consume 22 "t" "unlock"
          (run (consume 21 "t" "unlock" one_ticket).1 (issues 21 5 "s" phone_authorization ∷ []))).0
        ≡ err unknown_ticket)
ticket_consumed_once_example =
    ticket_consumed_once 21 22 "t" "unlock" "unlock" one_ticket
      (issues 21 5 "s" phone_authorization ∷ []) (refl, tt) consumed_at_21 (refl, tt)
