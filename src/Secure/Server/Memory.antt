-- ===== src/Secure/Server/Memory.antt =====
-- What the replay cache of a server remembers.
use pipa_personal_assistant.Prelude.{
  ℕ, suc, ◌+◌, ◌≤◌, ◌<◌, ◌≡◌, refl, String, true, false, [], ◌∷◌, ◌==◌, ltb, leb, length, arith,
  Bool-cases, inl, inr, ◌⊎◌, eq_iff,
}
use pipa_personal_assistant.Prelude.Dict.{Dict, has_key, insert, drop_oldest}
use pipa_personal_assistant.Secure.Server.{
  max_used_session_ids, session_id_replay_ttl_seconds, forget_expired, remember,
}

-- The id was seen at `t`, and at most `k` ids were seen after it.
abbrev pub Remembers : String → ℕ → ℕ → Dict ℕ → Type 0
Remembers id t k [] = ⊥
Remembers id t k ((other, seen) ∷ used) =
    ((other ≡ id) × (seen ≡ t) × (length used ≤ k)) ⊎ Remembers id t k used

pub Remembers-has_key :
    (id : String) (t k : ℕ) (used : Dict ℕ) → Remembers id t k used → has_key id used ≡ true
Remembers-has_key id t k [] m = absurd m
Remembers-has_key id t k ((other, seen) ∷ used) (inl m) = ground (arith, m.0, eq_iff other id)
Remembers-has_key id t k ((other, seen) ∷ used) (inr m) =
    ground (arith, Remembers-has_key id t k used m)

pub Remembers-forget_expired :
    (id : String) (t k now : ℕ) (used : Dict ℕ)
    → now < t + session_id_replay_ttl_seconds
    → Remembers id t k used
    → Remembers id t k (forget_expired now used)
unfolding forget_expired
Remembers-forget_expired id t k now [] h m = m
Remembers-forget_expired id t k now ((other, seen) ∷ used) h m =
    elim (Bool-cases (ltb now (seen + session_id_replay_ttl_seconds))) [
      | inl e ↦ rw e m
      | inr e ↦ rw e (elim m [
        | inl here ↦ absurd (ground (arith, here.1))
        | inr later ↦ Remembers-forget_expired id t k now used h later
      ])
    ]

length-insert_new :
    (other : String) (now : ℕ) (used : Dict ℕ)
    → has_key other used ≡ false
    → length (insert other now used) ≡ suc (length used)
length-insert_new other now [] h = refl
length-insert_new other now ((x, seen) ∷ used) h = ground (arith, length-insert_new other now used)

Remembers-insert :
    (id other : String) (t k now : ℕ) (used : Dict ℕ)
    → has_key other used ≡ false
    → Remembers id t k used
    → Remembers id t (suc k) (insert other now used)
Remembers-insert id other t k now [] h m = absurd m
Remembers-insert id other t k now ((x, seen) ∷ used) h m = elim (Bool-cases (x == other)) [
  | inl e ↦ absurd (ground (arith, e))
  | inr e ↦
      let absent : has_key other used ≡ false = ground (arith, e) in
      rw e (elim m [
        | inl here ↦
            inl (here.0, here.1, omega (arith, here.2, length-insert_new other now used absent))
        | inr later ↦ inr (Remembers-insert id other t k now used absent later)
      ])
]

Remembers-drop_oldest :
    (id : String) (t k : ℕ) (used : Dict ℕ)
    → k + 1 < length used
    → Remembers id t k used
    → Remembers id t k (drop_oldest used)
Remembers-drop_oldest id t k [] h m = m
Remembers-drop_oldest id t k ((x, seen) ∷ used) h (inl here) = absurd (omega (arith, here.2))
Remembers-drop_oldest id t k ((x, seen) ∷ used) h (inr later) = later

has_key-drop_oldest :
    (id : String) (used : Dict ℕ) → has_key id used ≡ false → has_key id (drop_oldest used) ≡ false
has_key-drop_oldest id [] h = h
has_key-drop_oldest id ((x, seen) ∷ used) h = ground arith

pub Remembers-remember :
    (id other : String) (t k now : ℕ) (used : Dict ℕ)
    → k + 1 < max_used_session_ids
    → has_key other used ≡ false
    → Remembers id t k used
    → Remembers id t (suc k) (remember other now used)
unfolding remember
Remembers-remember id other t k now used h absent m =
    elim (Bool-cases (leb max_used_session_ids (length used))) [
      | inl full ↦ rw full (
          Remembers-insert id other t k now (drop_oldest used)
            (has_key-drop_oldest other used absent)
            (Remembers-drop_oldest id t k used (ground arith) m))
      | inr room ↦ rw room (Remembers-insert id other t k now used absent m)
    ]

Remembers-insert_self :
    (id : String) (now : ℕ) (used : Dict ℕ)
    → has_key id used ≡ false
    → Remembers id now 0 (insert id now used)
Remembers-insert_self id now [] h = inl (refl, refl, omega arith)
Remembers-insert_self id now ((x, seen) ∷ used) h = elim (Bool-cases (x == id)) [
  | inl e ↦ absurd (ground (arith, e))
  | inr e ↦ rw e (inr (Remembers-insert_self id now used (ground (arith, e))))
]

pub Remembers-remember_self :
    (id : String) (now : ℕ) (used : Dict ℕ)
    → has_key id used ≡ false
    → Remembers id now 0 (remember id now used)
unfolding remember
Remembers-remember_self id now used h = elim (Bool-cases (leb max_used_session_ids (length used))) [
  | inl full ↦
      rw full (Remembers-insert_self id now (drop_oldest used) (has_key-drop_oldest id used h))
  | inr room ↦ rw room (Remembers-insert_self id now used h)
]

pub Remembers-suc :
    (id : String) (t k : ℕ) (used : Dict ℕ) → Remembers id t k used → Remembers id t (suc k) used
Remembers-suc id t k [] m = m
Remembers-suc id t k ((x, seen) ∷ used) (inl m) = inl (m.0, m.1, omega (arith, m.2))
Remembers-suc id t k ((x, seen) ∷ used) (inr m) = inr (Remembers-suc id t k used m)
