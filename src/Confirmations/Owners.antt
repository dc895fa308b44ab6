-- ===== src/Confirmations/Owners.antt =====
-- Cancelling what an owner has pending, when its session ends or aborts.
use pipa_personal_assistant.Prelude.{◌+◌, ◌≡◌, String, false, some, length}
use pipa_personal_assistant.Prelude.Text.{is_empty}
use pipa_personal_assistant.Prelude.Dict.{lookup, count_where}
use pipa_personal_assistant.Prelude.Dict.Laws.{lookup-drop_where, unless}
use pipa_personal_assistant.Prelude.Dict.Counts.{
  length-drop_where_count, count_where-drop_where_self,
}
use pipa_personal_assistant.Confirmations.{ConfirmationManager, is_owned_by, cancel_for_owner}
use pipa_personal_assistant.Confirmations.Invariant.{Inv}

-- In a valid manager, cancelling for an owner that is not the empty text takes exactly that owner's confirmations away, returns their number, and
-- leaves every other one as it was.
pub cancel_for_owner_exact :
    (owner : String) (m : ConfirmationManager)
    → Inv m
    → is_empty owner ≡ false
    → let (n, m') = cancel_for_owner owner m in
      (count_where (is_owned_by (some owner)) m'.pending ≡ 0)
      × (length m'.pending + n ≡ length m.pending)
      × ((id : String)
          → lookup id m'.pending ≡ unless (is_owned_by (some owner)) (lookup id m.pending))
unfolding cancel_for_owner
cancel_for_owner_exact owner m v h =
    rw (h, cancel_for_owner)
      (
        count_where-drop_where_self (is_owned_by (some owner)) m.pending,
        length-drop_where_count (is_owned_by (some owner)) m.pending,
        λ id. lookup-drop_where id (is_owned_by (some owner)) m.pending v.unique,
      )
