-- ===== src/Sessions/Invariant.antt =====
-- The invariant of the session registry, and that every operation keeps it.
use pipa_personal_assistant.Prelude.{
  ℕ, ◌≤◌, ◌<◌, ◌≡◌, refl, String, Bool, true, [], ◌==◌, length, ok, arith, Result-cases, inl, inr,
  eq_iff, subst,
}
use pipa_personal_assistant.Prelude.Dict.{
  insert, erase, drop_where, count_where, update, Unique, Each,
}
use pipa_personal_assistant.Prelude.Dict.Laws.{
  insert-Unique, erase-Unique, drop_where-Unique, update-Unique, insert-Each, erase-Each,
  drop_where-Each, update-Each,
}
use pipa_personal_assistant.Prelude.Dict.Counts.{
  length-insert, length-erase, length-drop_where, length-update, count_where-insert,
  count_where-erase, count_where-drop_where, count_where-update,
}
use pipa_personal_assistant.Sessions.{
  DeviceSession, Registry, NewSession, max_sessions, max_sessions_per_device, is_stale, prune,
  is_of_device, new_session, check_limits, create,
}

abbrev pub IsFiled : String → DeviceSession → Type 0
IsFiled key s = s.session_id ≡ key

pub record Inv (d : Registry) : Type 0 where
  pub unique : Unique d
  pub filed : Each IsFiled d
  pub bounded : length d ≤ max_sessions
  pub devices : (device : String) → count_where (is_of_device device) d ≤ max_sessions_per_device

pub empty-Inv : Inv []
empty-Inv = record { unique = tt; filed = tt; bounded = omega arith; devices = λ _. omega arith }

pub drop_where-Inv : (p : DeviceSession → Bool) (d : Registry) → Inv d → Inv (drop_where p d)
drop_where-Inv p d v = record {
  unique = drop_where-Unique p d v.unique;
  filed = drop_where-Each IsFiled p d v.filed;
  bounded = omega (arith, length-drop_where p d, v.bounded);
  devices = λ x. omega (arith, count_where-drop_where (is_of_device x) p d, v.devices x);
}

-- `prune` keeps the invariant.
pub prune-Inv : (now : ℕ) (d : Registry) → Inv d → Inv (prune now d).1
unfolding prune
prune-Inv now = drop_where-Inv (is_stale now)

-- `remove`
pub erase-Inv : (id : String) (d : Registry) → Inv d → Inv (erase id d)
erase-Inv id d v = record {
  unique = erase-Unique id d v.unique;
  filed = erase-Each IsFiled id d v.filed;
  bounded = omega (arith, length-erase id d, v.bounded);
  devices = λ x. omega (arith, count_where-erase (is_of_device x) id d, v.devices x);
}

-- A change of a session that keeps its identifier and its device.
pub update-Inv :
    (id : String) (f : DeviceSession → DeviceSession) (d : Registry)
    → ((s : DeviceSession) → ((f s).session_id ≡ s.session_id) × ((f s).device_id ≡ s.device_id))
    → Inv d
    → Inv (update id f d)
update-Inv id f d h v = record {
  unique = update-Unique id f d v.unique;
  filed = update-Each IsFiled id f d (λ j s e. ground (arith, (h s).0)) v.filed;
  bounded = omega (arith, length-update id f d, v.bounded);
  devices =
      λ x. omega (arith, count_where-update (is_of_device x) id f d (λ s. rw (h s).1), v.devices x);
}

room :
    (device x : String) (d : Registry)
    → check_limits device d ≡ ok tt
    → (device == x) ≡ true
    → count_where (is_of_device x) d < max_sessions_per_device
unfolding check_limits
room device x d h e =
    subst (λ y. count_where (is_of_device y) d < max_sessions_per_device) ((eq_iff device x).0 e)
      (ground arith)

total_room :
    (device : String) (d : Registry) → check_limits device d ≡ ok tt → length d < max_sessions
unfolding check_limits
total_room device d h = ground arith

insert-Inv :
    (s : DeviceSession) (d : Registry)
    → check_limits s.device_id d ≡ ok tt
    → Inv d
    → Inv (insert s.session_id s d)
insert-Inv s d h v = record {
  unique = insert-Unique s.session_id s d v.unique;
  filed = insert-Each IsFiled s.session_id s d refl v.filed;
  bounded = omega (arith, length-insert s.session_id s d, total_room s.device_id d h);
  devices = λ x. ground (
    arith,
    count_where-insert (is_of_device x) s.session_id s d,
    room s.device_id x d h,
    v.devices x,
  );
}

-- `create` keeps at most 32 sessions, and at most 2 of each device, whether it returns or raises
-- and whatever identifier is drawn.
pub create-Inv :
    (now : ℕ) (id : String) (n : NewSession) (d : Registry) → Inv d → Inv (create now id n d).1
unfolding create new_session
create-Inv now id n d v =
    let d' = (prune now d).1 in
    elim (Result-cases (check_limits n.device_id d')) [
      | inl (_, e) ↦ rw (e, create) (insert-Inv (new_session now id n) d' e (prune-Inv now d v))
      | inr (_, e) ↦ rw (e, create) (prune-Inv now d v)
    ]
