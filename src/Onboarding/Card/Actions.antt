-- ===== src/Onboarding/Card/Actions.antt =====
-- What a card lets the user do (frontend/src/components/onboarding/OnboardingCard.tsx).
use it_automation_workspace.Common.{
  Bool, true, false, ◌&&◌, ◌||◌, not, Option, List, [], ◌∷◌, filter, All, or_else, Bool-cases, inl,
  inr, ◌≡◌, refl, arith,
}
use it_automation_workspace.Onboarding.{
  OnboardedUserListItem, OnboardingWorkflowStatus, is_terminal, pending, ad_creating, email_sending,
  jira_creating, partially_complete, completed, failed,
}
use it_automation_workspace.Onboarding.Page.{
  status_is, is_offboarded, in_column, column_records, active_columns,
}
use it_automation_workspace.Onboarding.Card.{can_offboard, can_retry, can_rollback}

-- An employee who has not left can be offboarded or retried exactly when the workflow has ended, and
-- one who has left can be neither; never are both offered; and a record can be deleted exactly when
-- it can be retried.
pub actions_lem :
    (r : OnboardedUserListItem)
    → (can_offboard r || can_retry r ≡ is_terminal r.workflow_status && not (is_offboarded r))
      × (can_offboard r && can_retry r ≡ false)
      × (can_rollback r ≡ can_retry r)
unfolding can_offboard can_retry can_rollback
actions_lem r = (ground arith, ground arith, refl)

All-filter :
    (P : OnboardedUserListItem → Type 0) (p : OnboardedUserListItem → Bool)
    → ((r : OnboardedUserListItem) → p r ≡ true → P r)
    → (rs : List OnboardedUserListItem) → All P (filter p rs)
All-filter P p h [] = tt
All-filter P p h (r ∷ rs) = elim (Bool-cases (p r)) [
  | inl e ↦ rw e (h r e, All-filter P p h rs)
  | inr e ↦ rw e (All-filter P p h rs)
]

abbrev pub NeverOffboards : OnboardedUserListItem → Type 0
NeverOffboards r = can_offboard r ≡ false

column-NeverOffboards :
    (r : OnboardedUserListItem) (id : OnboardingWorkflowStatus)
    → status_is completed id ≡ false
    → in_column id r ≡ true
    → NeverOffboards r
unfolding can_offboard
column-NeverOffboards r id h e = ground arith

-- The cards of a column other than the completed ones.
column_records-NeverOffboards :
    (records : Option (List OnboardedUserListItem)) (id : OnboardingWorkflowStatus)
    → status_is completed id ≡ false
    → All NeverOffboards (column_records records id)
unfolding column_records
column_records-NeverOffboards records id h =
    All-filter NeverOffboards (in_column id) (λ r e. column-NeverOffboards r id h e)
      (or_else records [])

-- No card of the pipeline's active columns, which are full cards, offers to offboard the employee.
pub active_columns-can_offboard :
    (records : Option (List OnboardedUserListItem))
    → All (All NeverOffboards) (active_columns records)
unfolding active_columns
active_columns-can_offboard records =
    let column = column_records-NeverOffboards records in
    (
      column pending refl,
      (
        column ad_creating refl,
        (
          column email_sending refl,
          (column jira_creating refl, (column partially_complete refl, (column failed refl, tt))),
        ),
      ),
    )
