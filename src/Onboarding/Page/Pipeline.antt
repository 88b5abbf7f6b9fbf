-- ===== src/Onboarding/Page/Pipeline.antt =====
-- Where a record of the pipeline page stands, and what the numbers at its top count
-- (frontend/src/pages/Onboarding.tsx).
use mathlib.Core.List.{Perm}
use it_automation_workspace.Common.Partition.{only_one, classes-perm}
use it_automation_workspace.Common.{
  ◌≤◌, ap, ◌∙◌, suc, ◌+◌, Bool, true, false, Option, some, List, [], ◌∷◌, ◌++◌, length, concat, ◌≡◌,
  refl, arith, All,
}
use it_automation_workspace.Onboarding.{
  OnboardingWorkflowStatus, pending, ad_creating, email_sending, jira_creating, partially_complete,
  completed, failed, unlisted, OnboardedUserListItem,
}
use it_automation_workspace.Onboarding.Page.{
  is_offboarded, in_column, active_columns, completed_records, offboarded_records, stats,
}

abbrev pub is_listed : OnboardingWorkflowStatus → Bool
is_listed (unlisted _) = false
is_listed _ = true

-- A record with a status of the union.
abbrev pub IsListed : OnboardedUserListItem → Type 0
IsListed r = is_listed r.workflow_status ≡ true

-- All records that the page shows: the columns of the pipeline, the completed ones, and those of
-- employees who have left.
abbrev pub shown : Option (List OnboardedUserListItem) → List OnboardedUserListItem
shown records =
    concat (active_columns records ++ completed_records records ∷ offboarded_records records ∷ [])

abbrev places : List (OnboardedUserListItem → Bool)
places =
    in_column pending
    ∷ in_column ad_creating
    ∷ in_column email_sending
    ∷ in_column jira_creating
    ∷ in_column partially_complete
    ∷ in_column failed
    ∷ in_column completed
    ∷ is_offboarded
    ∷ []

one_place : (r : OnboardedUserListItem) → IsListed r → only_one places r ≡ true
one_place r h = ground arith

All-one_place :
    (rs : List OnboardedUserListItem) → All IsListed rs → All (λ r. only_one places r ≡ true) rs
All-one_place [] h = tt
All-one_place (r ∷ rs) h = (one_place r h.0, All-one_place rs h.1)

-- Each record that has a status of the union is shown in exactly one place of the page.
pub shown-perm : (rs : List OnboardedUserListItem) → All IsListed rs → Perm (shown (some rs)) rs
unfolding active_columns completed_records offboarded_records
shown-perm rs h = classes-perm places rs (All-one_place rs h)

stats_cons :
    (r : OnboardedUserListItem) (rs : List OnboardedUserListItem)
    → (stats (some (r ∷ rs))).active
        + (stats (some (r ∷ rs))).completed
        + (stats (some (r ∷ rs))).failed
        + (stats (some (r ∷ rs))).offboarded
      ≡ suc (
          (stats (some rs)).active
          + (stats (some rs)).completed
          + (stats (some rs)).failed
          + (stats (some rs)).offboarded)
unfolding stats
stats_cons r rs = ground arith

parts_cons :
    (r : OnboardedUserListItem) (rs : List OnboardedUserListItem)
    → (stats (some rs)).in_progress + (stats (some rs)).partially_complete
      ≤ (stats (some rs)).active
    → (stats (some (r ∷ rs))).in_progress + (stats (some (r ∷ rs))).partially_complete
      ≤ (stats (some (r ∷ rs))).active
unfolding stats
parts_cons r rs ih = ground arith

-- The numbers of active, completed and failed onboardings and of employees who have left add up to
-- the number of records, and those in progress and those completed in part are among the active.
pub stats_sum :
    (rs : List OnboardedUserListItem)
    → let s = stats (some rs) in
      (s.active + s.completed + s.failed + s.offboarded ≡ length rs)
      × (s.in_progress + s.partially_complete ≤ s.active)
unfolding stats
stats_sum [] = (refl, omega arith)
stats_sum (r ∷ rs) = (stats_cons r rs ∙ ap suc (stats_sum rs).0, parts_cons r rs (stats_sum rs).1)
