-- ===== src/Onboarding/Page.antt =====
-- The pipeline page, frontend/src/pages/Onboarding.tsx: its columns, and its numbers.
pub mod Pipeline
pub mod View
use it_automation_workspace.Common.{
  ℕ, suc, ◌+◌, Bool, true, false, ◌&&◌, ◌||◌, not, Option, none, some, List, [], ◌∷◌, ◌++◌, map,
  filter, length, any, if◌then◌else◌, ◌≡◌, refl, arith, or_else,
}
use it_automation_workspace.Onboarding.{
  UserStatus, active, offboarded, OnboardingWorkflowStatus, pending, ad_creating, email_sending,
  jira_creating, partially_complete, completed, failed, unlisted, OnboardedUserListItem,
}

-- `===` on the statuses. Two statuses outside the union are never compared.
abbrev pub status_is : OnboardingWorkflowStatus → OnboardingWorkflowStatus → Bool
status_is pending pending = true
status_is ad_creating ad_creating = true
status_is email_sending email_sending = true
status_is jira_creating jira_creating = true
status_is partially_complete partially_complete = true
status_is completed completed = true
status_is failed failed = true
status_is _ _ = false

abbrev pub is_offboarded : OnboardedUserListItem → Bool
is_offboarded r = elim r.status [ offboarded ↦ true | active ↦ false ]

-- `COLUMN_CONFIG`, without its texts and icons
pub record ColumnConfig : Type 0 where
  pub id : OnboardingWorkflowStatus
  pub is_active : Bool

abbrev pub column : OnboardingWorkflowStatus → Bool → ColumnConfig
column id is_active = record { id = id; is_active = is_active }

abbrev pub column_config : List ColumnConfig
column_config =
    column pending true
    ∷ column ad_creating true
    ∷ column email_sending true
    ∷ column jira_creating true
    ∷ column partially_complete true
    ∷ column completed false
    ∷ column failed true
    ∷ []

-- The records of a column.
abbrev pub in_column : OnboardingWorkflowStatus → OnboardedUserListItem → Bool
in_column id r = status_is r.workflow_status id && not (is_offboarded r)

unfoldable pub column_records :
    Option (List OnboardedUserListItem) → OnboardingWorkflowStatus → List OnboardedUserListItem
column_records records id = filter (in_column id) (or_else records [])

-- The columns of the pipeline, in order, with their records.
unfoldable pub active_columns :
    Option (List OnboardedUserListItem) → List (List OnboardedUserListItem)
unfolding column_records
active_columns records =
    map (λ (c : ColumnConfig). column_records records c.id)
      (filter (λ (c : ColumnConfig). c.is_active) column_config)

unfoldable pub completed_records : Option (List OnboardedUserListItem) → List OnboardedUserListItem
unfolding column_records
completed_records records = column_records records completed

unfoldable pub offboarded_records : Option (List OnboardedUserListItem) → List OnboardedUserListItem
offboarded_records records = filter is_offboarded (or_else records [])

pub record Stats : Type 0 where
  pub active : ℕ
  pub in_progress : ℕ
  pub partially_complete : ℕ
  pub completed : ℕ
  pub failed : ℕ
  pub offboarded : ℕ

abbrev pub counted : (OnboardedUserListItem → Bool) → List OnboardedUserListItem → ℕ
counted p rs = length (filter p rs)

unfoldable pub stats : Option (List OnboardedUserListItem) → Stats
stats none = record {
  active = 0;
  in_progress = 0;
  partially_complete = 0;
  completed = 0;
  failed = 0;
  offboarded = 0;
}
stats (some rs) = record {
  active =
      counted
        (λ r.
          not (status_is r.workflow_status completed)
          && not (status_is r.workflow_status failed)
          && not (is_offboarded r))
        rs;
  in_progress =
      counted
        (λ r.
          any (status_is r.workflow_status) (ad_creating ∷ email_sending ∷ jira_creating ∷ [])
          && not (is_offboarded r))
        rs;
  partially_complete = counted (in_column partially_complete) rs;
  completed = counted (in_column completed) rs;
  failed = counted (in_column failed) rs;
  offboarded = counted is_offboarded rs;
}

-- Opening and closing a column.
abbrev pub has_status : OnboardingWorkflowStatus → List OnboardingWorkflowStatus → Bool
has_status id = any (λ s. status_is s id)

unfoldable pub toggle_column :
    OnboardingWorkflowStatus → List OnboardingWorkflowStatus → List OnboardingWorkflowStatus
toggle_column id prev =
    if has_status id prev then filter (λ s. not (status_is s id)) prev else prev ++ id ∷ []
