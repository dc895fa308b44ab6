-- ===== src/Tickets/Once.antt =====
-- A consumed ticket is not consumed again.
use pipa_personal_assistant.Prelude.{
  ℕ, ◌≡◌, refl, String, false, Option, none, some, List, [], ◌∷◌, ◌==◌, ok, err, arith, eq_refl,
  eq_iff, All, subst, sym, ◌∙◌, Bool-cases, inl, inr, ◌⊎◌,
}
use pipa_personal_assistant.Prelude.Dict.{lookup, has_key, erase, Unique}
use pipa_personal_assistant.Prelude.Text.{is_empty}
use pipa_personal_assistant.Prelude.Dict.Laws.{
  lookup-insert, lookup-erase, lookup-drop_where, erase-Unique, insert-Unique, drop_where-Unique,
}
use pipa_personal_assistant.TrustedUnlock.Data.{VerifiedAuthorization}
use pipa_personal_assistant.Tickets.{
  IssuedTicket, TicketIssuer, ticket_replay, unknown_ticket, is_expired, prune, remember,
  new_ticket, issue, consume_found, consume, Call, issues, consumes, step, run,
}

-- The call does not draw the token.
abbrev pub Avoids : String → Call → Type 0
Avoids token (issues now ttl drawn a) = (drawn == token) ≡ false
Avoids token _ = Unit

-- No token stands twice, and this one does not stand.
abbrev IsSpent : String → TicketIssuer → Type 0
IsSpent token i = Unique i.tickets × (lookup token i.tickets ≡ none)

prune-IsSpent :
    (now : ℕ) (token : String) (i : TicketIssuer) → IsSpent token i → IsSpent token (prune now i)
unfolding prune
prune-IsSpent now token i (u, h) = (
  drop_where-Unique (is_expired now) i.tickets u,
  ground (arith, lookup-drop_where token (is_expired now) i.tickets u),
)

erase-IsSpent :
    (token other : String) (i : TicketIssuer)
    → IsSpent token i
    → IsSpent token (record i { tickets = erase other i.tickets })
erase-IsSpent token other i (u, h) =
    (erase-Unique other i.tickets u, ground (arith, lookup-erase token other i.tickets))

found-IsSpent :
    (token other : String) (now : ℕ) (name : String) (t : Option IssuedTicket) (i : TicketIssuer)
    → IsSpent token i
    → IsSpent token (consume_found now other name t i).1
unfolding consume_found
found-IsSpent token other now name none i s = s
found-IsSpent token other now name (some t) i s = elim (Bool-cases (is_expired now t)) [
  | inl e ↦ rw (consume_found, e) (prune-IsSpent now token _ (erase-IsSpent token other i s))
  | inr e ↦ elim (Bool-cases (name == t.operation)) [
    | inl f ↦ rw (consume_found, e, f) (prune-IsSpent now token _ (erase-IsSpent token other i s))
    | inr f ↦ rw (consume_found, e, f) s
  ]
]

issue-IsSpent :
    (now ttl : ℕ) (token drawn : String) (a : VerifiedAuthorization) (i : TicketIssuer)
    → (drawn == token) ≡ false
    → IsSpent token i
    → IsSpent token (issue now ttl drawn a i).1
unfolding issue
issue-IsSpent now ttl token drawn a i h s =
    let p = prune-IsSpent now token i s in
    let t = new_ticket now ttl drawn a in
    ground (
      arith,
      p.0,
      p.1,
      s.0,
      s.1,
      insert-Unique drawn t (prune now i).tickets p.0,
      lookup-insert token drawn t (prune now i).tickets,
    )

step-IsSpent :
    (token : String) (i : TicketIssuer) (c : Call)
    → Avoids token c
    → IsSpent token i
    → IsSpent token (step i c)
unfolding step consume
step-IsSpent token i (issues now ttl drawn a) h s = issue-IsSpent now ttl token drawn a i h s
step-IsSpent token i (consumes now other name) h s =
    let f = found-IsSpent token other now name (lookup other i.tickets) i s in
    ground (arith, f.0, f.1, s.0, s.1)

run-IsSpent :
    (token : String) (i : TicketIssuer) (cs : List Call)
    → All (Avoids token) cs
    → IsSpent token i
    → IsSpent token (run i cs)
unfolding run
run-IsSpent token i [] h s = s
run-IsSpent token i (c ∷ cs) h s =
    run-IsSpent token (step i c) cs h.1 (step-IsSpent token i c h.0 s)

pub consume_found-ok :
    (now : ℕ) (token name : String) (o : Option IssuedTicket) (i : TicketIssuer) {t : IssuedTicket}
    → (consume_found now token name o i).0 ≡ ok t
    → (o ≡ some t)
      × (is_expired now t ≡ false)
      × (name ≡ t.operation)
      × ((consume_found now token name o i).1
          ≡ prune now
              (record { tickets = erase token i.tickets; consumed = remember token t i.consumed }))
unfolding consume_found
consume_found-ok now token name none i h = cc
consume_found-ok now token name (some u) i {t} h = elim (Bool-cases (is_expired now u)) [
  | inl e ↦ absurd (ground (arith, e))
  | inr e ↦ elim (Bool-cases (name == u.operation)) [
    | inl f ↦
        let same : u ≡ t = ground (arith, e, f) in
        subst
          (λ x.
            (some u ≡ some x)
            × (is_expired now x ≡ false)
            × (name ≡ x.operation)
            × ((consume_found now token name (some u) i).1
                ≡ prune now (record {
                  tickets = erase token i.tickets;
                  consumed = remember token x i.consumed;
                })))
          same (refl, e, (eq_iff name u.operation).0 f, simp (e, f))
    | inr f ↦ absurd (ground (arith, e, f))
  ]
]

pub consume-found :
    (now : ℕ) (token name : String) (i : TicketIssuer) {t : IssuedTicket}
    → (consume now token name i).0 ≡ ok t
    → (is_empty token ≡ false)
      × (has_key token i.consumed ≡ false)
      × ((consume_found now token name (lookup token i.tickets) i).0 ≡ ok t)
      × ((consume now token name i).1 ≡ (consume_found now token name (lookup token i.tickets) i).1)
unfolding consume
consume-found now token name i h = ground arith

consumed-IsSpent :
    (now : ℕ) (token name : String) (i : TicketIssuer) {t : IssuedTicket}
    → Unique i.tickets
    → (consume now token name i).0 ≡ ok t
    → IsSpent token (consume now token name i).1
consumed-IsSpent now token name i {t} u h =
    let parts = consume-found now token name i h in
    let found = consume_found-ok now token name (lookup token i.tickets) i parts.2 in
    let w : TicketIssuer = record {
      tickets = erase token i.tickets;
      consumed = remember token t i.consumed;
    } in
    let spent : IsSpent token w = (
      erase-Unique token i.tickets u,
      ground (arith, lookup-erase token token i.tickets, eq_refl token),
    ) in
    subst (IsSpent token) (sym (parts.3 ∙ found.3)) (prune-IsSpent now token w spent)

spent_refused :
    (now : ℕ) (token name : String) (i : TicketIssuer)
    → is_empty token ≡ false
    → IsSpent token i
    → ((consume now token name i).0 ≡ err ticket_replay)
      ⊎ ((consume now token name i).0 ≡ err unknown_ticket)
unfolding consume consume_found
spent_refused now token name i e s = elim (Bool-cases (has_key token i.consumed)) [
  | inl h ↦ inl (simp (e, h))
  | inr h ↦ inr (simp (e, h, s.1))
]

-- Once a ticket has been consumed by an issuer where no token stands twice, every later attempt is refused as a replay or as
-- unknown, for whatever operation and whatever calls came in between, as long as the random source
-- does not draw its token again.
pub ticket_consumed_once :
    (now later : ℕ) (token name other : String) (i : TicketIssuer) (cs : List Call)
    {t : IssuedTicket}
    → Unique i.tickets
    → (consume now token name i).0 ≡ ok t
    → All (Avoids token) cs
    → ((consume later token other (run (consume now token name i).1 cs)).0 ≡ err ticket_replay)
      ⊎ ((consume later token other (run (consume now token name i).1 cs)).0 ≡ err unknown_ticket)
ticket_consumed_once now later token name other i cs u h a =
    let w = (consume now token name i).1 in
    spent_refused later token other (run w cs) (consume-found now token name i h).0
      (run-IsSpent token w cs a (consumed-IsSpent now token name i u h))
