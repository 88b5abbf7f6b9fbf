-- ===== src/Onboarding/Card.antt =====
-- The card of one record: frontend/src/components/onboarding/OnboardingCard.tsx.
pub mod Actions
pub mod Animation
pub mod Full
pub mod Timeline
pub mod View
use Prim.Native.String.{String}
use text.Mathlib.Text.{◌==◌ as str_eq}
use it_automation_workspace.Common.{
  ℕ, suc, Text, Bool, true, false, ◌&&◌, ◌||◌, not, Option, none, some, List, [], ◌∷◌, ◌++◌, map,
  any, take, length, or_else, ltb, leb, ◌==◌, if◌then◌else◌,
}
use it_automation_workspace.Onboarding.{
  OnboardingWorkflowStatus, pending, ad_creating, email_sending, jira_creating, partially_complete,
  completed, failed, OnboardedUserListItem, ProvisioningSource,
}
use it_automation_workspace.Onboarding.Page.{status_is, is_offboarded}

-- `STEPS`, by their keys.
abbrev pub steps : List OnboardingWorkflowStatus
steps = pending ∷ ad_creating ∷ email_sending ∷ jira_creating ∷ completed ∷ []

-- `findIndex`, with `none` for -1.
unfoldable pub find_index : OnboardingWorkflowStatus → List OnboardingWorkflowStatus → Option ℕ
find_index s [] = none
find_index s (k ∷ ks) =
    let rest = find_index s ks in
    if status_is k s then some 0 else elim rest [ none ↦ none | some i ↦ some (suc i) ]

-- `===`, `<` and `<=` of a position and an index that may be -1.
abbrev pub is_at : ℕ → Option ℕ → Bool
is_at i none = false
is_at i (some j) = i == j

abbrev pub is_before : ℕ → Option ℕ → Bool
is_before i none = false
is_before i (some j) = ltb i j

abbrev pub is_up_to : ℕ → Option ℕ → Bool
is_up_to i none = false
is_up_to i (some j) = leb i j

-- How a step of the timeline is drawn.
pub data Mark : Type 0 where
  done current unconfirmed ahead : Mark

-- The items of a list with their positions, which are counted from `i`.
abbrev pub numbered {ℓ κ} : {A : Type ℓ} {B : Type κ} → (ℕ → A → B) → ℕ → List A → List B
numbered f i [] = []
numbered f i (x ∷ xs) = f i x ∷ numbered f (suc i) xs

module _ (r : OnboardedUserListItem) where
  unfoldable pub can_offboard : Bool
  can_offboard = not (is_offboarded r) && status_is r.workflow_status completed

  abbrev pub is_failed : Bool
  is_failed = status_is r.workflow_status failed

  abbrev pub is_partial : Bool
  is_partial = status_is r.workflow_status partially_complete

  unfoldable pub can_retry : Bool
  can_retry = (is_failed || is_partial) && not (is_offboarded r)

  unfoldable pub can_rollback : Bool
  can_rollback = (is_failed || is_partial) && not (is_offboarded r)

  unfoldable pub current_step_index : Option ℕ
  unfolding find_index
  current_step_index = find_index r.workflow_status steps

  unfoldable pub effective_step_index : Option ℕ
  unfolding find_index current_step_index
  effective_step_index = if is_partial then find_index email_sending steps else current_step_index

  -- `STEPS.slice(0, currentStepIndex + 1)` is empty at -1.
  unfoldable pub display_steps : List OnboardingWorkflowStatus
  unfolding current_step_index
  display_steps =
      if is_failed || is_partial
      then steps
      else elim current_step_index [ none ↦ [] | some i ↦ take (suc i) steps ]

  unfoldable pub mark : ℕ → Mark
  unfolding effective_step_index
  mark i =
      if is_before i effective_step_index && not is_failed && not is_partial
      then done
      else if is_at i effective_step_index && not is_failed && not is_partial
      then current
      else if is_partial && not (is_before i effective_step_index)
      then unconfirmed
      else ahead

  -- The timeline of the full card.
  unfoldable pub timeline : List (OnboardingWorkflowStatus × Mark)
  unfolding display_steps mark
  timeline = numbered (λ i s. (s, mark i)) 0 display_steps

  -- The timeline of the compact card, which draws no step as unconfirmed.
  unfoldable pub compact_timeline : List (OnboardingWorkflowStatus × Mark)
  unfolding current_step_index
  compact_timeline =
      numbered
        (λ i s. (
          s,
          if is_up_to i current_step_index
              then if is_at i current_step_index then current else done
              else ahead,
        ))
        0 steps

  -- `handleRetry`: the arguments of the request, or none if the record has no job.
  unfoldable pub handle_retry : Bool → Option (String × Bool)
  handle_retry rotate_password =
      if str_eq (or_else r.job_id "") ""
      then none
      else some (or_else r.job_id "", if is_partial then rotate_password else true)

-- The entries of the log, with the values of the record that they show.
pub data LogEntry : Type 0 where
  onboard_start : (first_name email department : String) → LogEntry
  ad_create : (first_name last_name ou : String) → ProvisioningSource → LogEntry
  email_send : (to : String) → LogEntry
  jira_ticket : (first_name last_name : String) → LogEntry
  unconfirmed_account : LogEntry
  error_entry : Text → LogEntry

abbrev when {ℓ} : {A : Type ℓ} → Bool → A → List A
when true x = x ∷ []
when false x = []

-- The entry of a message that is neither `null` nor empty.
abbrev error_entries : Option Text → List LogEntry
error_entries none = []
error_entries (some []) = []
error_entries (some (c ∷ cs)) = error_entry (c ∷ cs) ∷ []

-- `reachedOrPast`
abbrev reached_or_past : OnboardedUserListItem → List OnboardingWorkflowStatus → Bool
reached_or_past r ss = any (λ s. status_is s r.workflow_status) ss

-- `generateSimulationLog`
unfoldable pub simulation_log : OnboardedUserListItem → List LogEntry
simulation_log r =
    when (not (status_is r.workflow_status pending))
      (onboard_start r.first_name r.email r.department)
    ++ when
        (reached_or_past r
          (ad_creating ∷ email_sending ∷ jira_creating ∷ partially_complete ∷ completed ∷ []))
        (ad_create r.first_name r.last_name r.department r.provisioning_source)
    ++ when
        (reached_or_past r (email_sending ∷ jira_creating ∷ partially_complete ∷ completed ∷ []))
        (email_send r.email)
    ++ when (reached_or_past r (jira_creating ∷ completed ∷ []))
        (jira_ticket r.first_name r.last_name)
    ++ when (status_is r.workflow_status partially_complete) unconfirmed_account
    ++ (if status_is r.workflow_status failed then error_entries r.error_message else [])
