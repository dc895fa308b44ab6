-- ===== src/Secure/Server/Once.antt =====
-- A session id that was accepted is not accepted again.
use pipa_personal_assistant.Prelude.{
  ℕ, suc, ◌+◌, ◌<◌, ◌≡◌, sym, subst, String, true, false, List, [], ◌∷◌, length, Result, ok, err,
  arith, Bool-cases, Option-cases, Result-cases, inl, inr, ◌⊎◌, All,
}
use pipa_personal_assistant.Prelude.Bytes.{Bytes}
use pipa_personal_assistant.Prelude.Dict.{Dict, lookup, has_key}
use pipa_personal_assistant.Json.{Value}
use pipa_personal_assistant.Secure.Crypto.{Crypto}
use pipa_personal_assistant.Secure.Session.{SecureSession}
use pipa_personal_assistant.Secure.Hello.{HandshakeError, ClientHello, ServerHello}
use pipa_personal_assistant.Secure.Handshake.{create_server_hello}
use pipa_personal_assistant.Secure.Server.{
  max_used_session_ids, session_id_replay_ttl_seconds, already_consumed, not_paired, forget_expired,
  check_payload, SessionServer, are_named, refresh_trusted_devices, answer_hello, accept_unused,
  accept_hello, accept_client_hello, Call, accepts, refreshes, step, run,
}
use pipa_personal_assistant.Secure.Server.Memory.{
  Remembers, Remembers-has_key, Remembers-forget_expired, Remembers-remember,
  Remembers-remember_self, Remembers-suc,
}

module _ (c : Crypto) where
  -- The call is made before the limit.
  abbrev pub IsBefore : ℕ → Call c → Type 0
  IsBefore limit (accepts now ephemeral drawn payload) = now < limit
  IsBefore limit (refreshes devices) = Unit

  answered_Remembers :
      (id other : String) (t k now : ℕ) (v : SessionServer c)
      (r : Result HandshakeError (ServerHello × SecureSession))
      → k + 1 < max_used_session_ids
      → has_key other v.used_session_ids ≡ false
      → Remembers id t k v.used_session_ids
      → Remembers id t (suc k) (answer_hello c other now v r).1.used_session_ids
  answered_Remembers id other t k now v (ok answer) h absent m =
      Remembers-remember id other t k now v.used_session_ids h absent m
  answered_Remembers id other t k now v (err e) h absent m =
      Remembers-suc id t k v.used_session_ids m

  accept_unused-Remembers :
      (id : String) (t k now : ℕ) (b : c.ExchangeKey) (drawn : Bytes) (h : ClientHello)
      (key : c.VerifyKey) (v : SessionServer c)
      → k + 1 < max_used_session_ids
      → Remembers id t k v.used_session_ids
      → Remembers id t (suc k) (accept_unused c now b drawn h key v).1.used_session_ids
  unfolding accept_unused
  accept_unused-Remembers id t k now b drawn h key v room m =
      elim (Bool-cases (has_key h.session_id v.used_session_ids)) [
        | inl e ↦ rw (e, accept_unused) (Remembers-suc id t k v.used_session_ids m)
        | inr e ↦
            rw (e, accept_unused)
              (answered_Remembers id h.session_id t k now v
                (create_server_hello c v.identity h key b drawn) room e m)
      ]

  accept_hello-Remembers :
      (id : String) (t k now : ℕ) (b : c.ExchangeKey) (drawn : Bytes) (h : ClientHello)
      (v : SessionServer c)
      → k + 1 < max_used_session_ids
      → now < t + session_id_replay_ttl_seconds
      → Remembers id t k v.used_session_ids
      → Remembers id t (suc k) (accept_hello c now b drawn h v).1.used_session_ids
  unfolding accept_hello
  accept_hello-Remembers id t k now b drawn h v room soon m =
      elim (Option-cases (lookup h.client_id v.trusted_devices)) [
        | inl e ↦ rw (e, accept_hello) (Remembers-suc id t k v.used_session_ids m)
        | inr (key, e) ↦
            rw (e, accept_hello)
              (accept_unused-Remembers id t k now b drawn h key _ room
                (Remembers-forget_expired id t k now v.used_session_ids soon m))
      ]

  accept_client_hello-Remembers :
      (id : String) (t k now : ℕ) (b : c.ExchangeKey) (drawn : Bytes) (payload : Value)
      (v : SessionServer c)
      → k + 1 < max_used_session_ids
      → now < t + session_id_replay_ttl_seconds
      → Remembers id t k v.used_session_ids
      → Remembers id t (suc k) (accept_client_hello c now b drawn payload v).1.used_session_ids
  unfolding accept_client_hello
  accept_client_hello-Remembers id t k now b drawn payload v room soon m =
      elim (Result-cases (check_payload payload)) [
        | inl (h, e) ↦
            rw (e, accept_client_hello) (accept_hello-Remembers id t k now b drawn h v room soon m)
        | inr (x, e) ↦ rw (e, accept_client_hello) (Remembers-suc id t k v.used_session_ids m)
      ]

  refresh-used :
      (devices : Dict c.VerifyKey) (v : SessionServer c)
      → (refresh_trusted_devices c devices v).1.used_session_ids ≡ v.used_session_ids
  unfolding refresh_trusted_devices
  refresh-used devices v = elim (Bool-cases (are_named c devices)) [
    | inl e ↦ ground (arith, e)
    | inr e ↦ ground (arith, e)
  ]

  step-Remembers :
      (id : String) (t k : ℕ) (v : SessionServer c) (x : Call c)
      → k + 1 < max_used_session_ids
      → IsBefore (t + session_id_replay_ttl_seconds) x
      → Remembers id t k v.used_session_ids
      → Remembers id t (suc k) (step c v x).used_session_ids
  unfolding step
  step-Remembers id t k v (accepts now b drawn payload) room soon m =
      accept_client_hello-Remembers id t k now b drawn payload v room soon m
  step-Remembers id t k v (refreshes devices) room soon m =
      subst (Remembers id t (suc k)) (sym (refresh-used devices v))
        (Remembers-suc id t k v.used_session_ids m)

  run-Remembers :
      (id : String) (t k n : ℕ) (v : SessionServer c) (xs : List (Call c))
      → n ≡ k + length xs
      → n < max_used_session_ids
      → All (IsBefore (t + session_id_replay_ttl_seconds)) xs
      → Remembers id t k v.used_session_ids
      → (j : ℕ) × Remembers id t j (run c v xs).used_session_ids
  unfolding run
  run-Remembers id t k n v [] e room soon m = (k, m)
  run-Remembers id t k n v (x ∷ xs) e room soon m =
      run-Remembers id t (suc k) n (step c v x) xs (omega (arith, e)) room soon.1
        (step-Remembers id t k v x (omega (arith, e)) soon.0 m)

  answered :
      (id : String) (now : ℕ) (v : SessionServer c)
      (r : Result HandshakeError (ServerHello × SecureSession))
      {answer : ServerHello × SecureSession}
      → has_key id v.used_session_ids ≡ false
      → (answer_hello c id now v r).0 ≡ ok answer
      → Remembers id now 0 (answer_hello c id now v r).1.used_session_ids
  answered id now v (ok a) h e = Remembers-remember_self id now v.used_session_ids h
  answered id now v (err x) h e = cc

  unused_accepted :
      (now : ℕ) (b : c.ExchangeKey) (drawn : Bytes) (h : ClientHello) (key : c.VerifyKey)
      (v : SessionServer c) {answer : ServerHello × SecureSession}
      → (accept_unused c now b drawn h key v).0 ≡ ok answer
      → Remembers h.session_id now 0 (accept_unused c now b drawn h key v).1.used_session_ids
  unfolding accept_unused
  unused_accepted now b drawn h key v {answer} e =
      elim (Bool-cases (has_key h.session_id v.used_session_ids)) [
        | inl used ↦ absurd (ground (arith, used))
        | inr unused ↦
            rw (unused, accept_unused)
              (answered h.session_id now v (create_server_hello c v.identity h key b drawn)
                {answer = answer} unused (ground (arith, unused)))
      ]

  hello_accepted :
      (now : ℕ) (b : c.ExchangeKey) (drawn : Bytes) (h : ClientHello) (v : SessionServer c)
      {answer : ServerHello × SecureSession}
      → (accept_hello c now b drawn h v).0 ≡ ok answer
      → Remembers h.session_id now 0 (accept_hello c now b drawn h v).1.used_session_ids
  unfolding accept_hello
  hello_accepted now b drawn h v {answer} e =
      elim (Option-cases (lookup h.client_id v.trusted_devices)) [
        | inl f ↦ absurd (ground (arith, f))
        | inr (key, f) ↦
            rw (f, accept_hello)
              (unused_accepted now b drawn h key _ {answer = answer} (ground (arith, f)))
      ]

  used_refused :
      (now : ℕ) (b : c.ExchangeKey) (drawn : Bytes) (h : ClientHello) (v : SessionServer c)
      → has_key h.session_id (forget_expired now v.used_session_ids) ≡ true
      → ((accept_hello c now b drawn h v).0 ≡ err already_consumed)
        ⊎ ((accept_hello c now b drawn h v).0 ≡ err not_paired)
  unfolding accept_hello accept_unused
  used_refused now b drawn h v e = elim (Option-cases (lookup h.client_id v.trusted_devices)) [
    | inl f ↦ inr (ground (arith, f))
    | inr (key, f) ↦ inl (ground (arith, e, f))
  ]

  -- Once a hello is accepted, every hello with its session id that comes less than half an hour
  -- later, after at most 4094 calls that all came in that time, is refused: its session id is
  -- already consumed, or its client is no longer paired.
  pub session_id_once :
      (now later : ℕ) (b b' : c.ExchangeKey) (drawn drawn' : Bytes) (payload payload' : Value)
      (h h' : ClientHello) (v : SessionServer c) (xs : List (Call c))
      {answer : ServerHello × SecureSession}
      → check_payload payload ≡ ok h
      → check_payload payload' ≡ ok h'
      → h'.session_id ≡ h.session_id
      → (accept_client_hello c now b drawn payload v).0 ≡ ok answer
      → All (IsBefore (now + session_id_replay_ttl_seconds)) xs
      → length xs + 1 < max_used_session_ids
      → later < now + session_id_replay_ttl_seconds
      → let w = run c (accept_client_hello c now b drawn payload v).1 xs in
        ((accept_client_hello c later b' drawn' payload' w).0 ≡ err already_consumed)
        ⊎ ((accept_client_hello c later b' drawn' payload' w).0 ≡ err not_paired)
  unfolding accept_client_hello
  session_id_once now later b b' drawn drawn' payload payload' h h' v xs {answer} p p' same e soon
        few in_time =
      let w = (accept_client_hello c now b drawn payload v).1 in
      let begun : Remembers h.session_id now 0 w.used_session_ids =
        rw (p, accept_client_hello)
          (hello_accepted now b drawn h v {answer = answer} (ground (arith, p))) in
      let (j, kept) =
        run-Remembers h.session_id now 0 (length xs) w xs (omega arith) (omega arith) soon begun in
      let present = Remembers-has_key h.session_id now j _ (
        Remembers-forget_expired h.session_id now j later (run c w xs).used_session_ids in_time
          kept) in
      let refusal = used_refused later b' drawn' h' (run c w xs) (rw same present) in
      rw (p', accept_client_hello) refusal
