-- ===== src/Tickets.antt =====
-- windows-agent/trusted_unlock_ticket.py: short-lived tickets, good for one use, from accepted
-- authorizations. A call takes the clock's seconds and the drawn token as arguments, and returns
-- the issuer beside its result.
pub mod Once
pub mod Issuing
use pipa_personal_assistant.Prelude.{
  ℕ, ◌+◌, ltb, leb, String, Bool, true, ◌||◌, not, Option, none, some, List, [], ◌∷◌, ◌==◌,
  if◌then◌else◌, length, Result, ok, err, ◌>>=◌, ◌>>◌, require,
}
use pipa_personal_assistant.Prelude.Dict.{
  Dict, lookup, has_key, insert, erase, drop_where, drop_oldest,
}
use pipa_personal_assistant.Prelude.Text.{is_empty}
use pipa_personal_assistant.TrustedUnlock.Data.{VerifiedAuthorization}

abbrev pub unlock_operation : String
unlock_operation = "unlock"

abbrev pub max_ticket_ttl_seconds : ℕ
max_ticket_ttl_seconds = 10

abbrev max_consumed_tickets : ℕ
max_consumed_tickets = 4096

-- a constructor for each `raise`
pub data TicketError : Type 0 where
  invalid_ttl wrong_operation expired_authorization : TicketError
  empty_token ticket_replay unknown_ticket expired_ticket operation_mismatch : TicketError

pub record IssuedTicket : Type 0 where
  pub token : String
  pub device_id : String
  pub operation : String
  pub issued_at : ℕ
  pub expires_at : ℕ

pub record TicketIssuer : Type 0 where
  pub tickets : Dict IssuedTicket
  pub consumed : Dict ℕ

-- `ticket.expires_at <= now`
abbrev pub is_expired : ℕ → IssuedTicket → Bool
is_expired now t = leb t.expires_at now

-- `_prune`
unfoldable pub prune : ℕ → TicketIssuer → TicketIssuer
prune now i = record {
  tickets = drop_where (is_expired now) i.tickets;
  consumed = drop_where (λ expires. leb expires now) i.consumed;
}

-- the checks of `issue`
unfoldable pub check_issue : ℕ → ℕ → VerifiedAuthorization → Result TicketError (Unit {0})
check_issue now ttl a = do
  require (a.operation == unlock_operation) wrong_operation
  require (not (ltb ttl 1 || ltb max_ticket_ttl_seconds ttl)) invalid_ttl
  require (not (leb a.expires_at now)) expired_authorization

-- the ticket ends with its own time or with the authorization, whichever comes first
unfoldable pub new_ticket : ℕ → ℕ → String → VerifiedAuthorization → IssuedTicket
new_ticket now ttl token a = record {
  token = token;
  device_id = a.device_id;
  operation = a.operation;
  issued_at = now;
  expires_at = if ltb a.expires_at (now + ttl) then a.expires_at else now + ttl;
}

abbrev pub issue_checked :
    ℕ
    → ℕ
    → String
    → VerifiedAuthorization
    → TicketIssuer
    → Result TicketError (Unit {0})
    → Result TicketError IssuedTicket × TicketIssuer
issue_checked now ttl token a i (ok _) =
    let t = new_ticket now ttl token a in
    let i' = prune now i in (ok t, record i' { tickets = insert token t i'.tickets })
issue_checked now ttl token a i (err e) = (err e, i)

unfoldable pub issue :
    ℕ
    → ℕ
    → String
    → VerifiedAuthorization
    → TicketIssuer
    → Result TicketError IssuedTicket × TicketIssuer
issue now ttl token a i = issue_checked now ttl token a i (check_issue now ttl a)

-- `self._consumed[token] = …`, after the oldest has made room
unfoldable pub remember : String → IssuedTicket → Dict ℕ → Dict ℕ
remember token t consumed =
    insert token t.expires_at
      (if leb max_consumed_tickets (length consumed) then drop_oldest consumed else consumed)

-- `consume`, with the ticket that it finds
unfoldable pub consume_found :
    ℕ
    → String
    → String
    → Option IssuedTicket
    → TicketIssuer
    → Result TicketError IssuedTicket × TicketIssuer
consume_found now token name none i = (err unknown_ticket, i)
consume_found now token name (some t) i =
    let rest = erase token i.tickets in
    if is_expired now t
    then (err expired_ticket, prune now (record i { tickets = rest }))
    else (if name == t.operation
        then (ok t, prune now (record { tickets = rest; consumed = remember token t i.consumed }))
        else (err operation_mismatch, i))

unfoldable pub consume :
    ℕ → String → String → TicketIssuer → Result TicketError IssuedTicket × TicketIssuer
consume now token name i =
    if is_empty token
    then (err empty_token, i)
    else (if has_key token i.consumed
        then (err ticket_replay, i)
        else consume_found now token name (lookup token i.tickets) i)

-- A call of the issuer from outside, with what the clock and `secrets` give it.
pub data Call : Type 0 where
  issues : ℕ → ℕ → String → VerifiedAuthorization → Call
  consumes : ℕ → String → String → Call

unfoldable pub step : TicketIssuer → Call → TicketIssuer
step i (issues now ttl token a) = (issue now ttl token a i).1
step i (consumes now token name) = (consume now token name i).1

unfoldable pub run : TicketIssuer → List Call → TicketIssuer
run i [] = i
run i (c ∷ cs) = run (step i c) cs
