-- ===== src/Tests/Pages.antt =====
-- Records of onboarding, on the pipeline page and its cards.
use mathlib.Core.List.{Perm}
use it_automation_workspace.Common.{
  ◌+◌, ◌&&◌, not, none, some, [], ◌∷◌, codes, All, if◌then◌else◌, ◌≡◌, refl,
}
use text.Mathlib.Text.{◌==◌ as str_eq}
use it_automation_workspace.Onboarding.{
  OnboardedUserListItem, OnboardRequest, email_sending, failed, is_terminal, workflow_status_of,
  Cache, includes, optimistic_record,
}
use it_automation_workspace.Onboarding.JobStream.{OnboardingJobStreamEvent, apply_event}
use it_automation_workspace.Onboarding.Watching.{
  NoRepeats, add, remove, watch_all, is_watched, watch_all_lem, ListUpdated, apply_event_lem,
}
use it_automation_workspace.Onboarding.Page.{active_columns}
use it_automation_workspace.Onboarding.Page.Pipeline.{shown, shown-perm}
use it_automation_workspace.Onboarding.Card.Actions.{NeverOffboards, active_columns-can_offboard}

abbrev form : OnboardRequest
form = record {
  first_name = "Ada";
  last_name = "L";
  email = "ada@b.de";
  department = "IT";
  job_title = "Engineer";
}

abbrev ada : OnboardedUserListItem
ada = record (optimistic_record form "1" "2026") { workflow_status = email_sending }

abbrev bob : OnboardedUserListItem
bob = record (optimistic_record form "2" "2026") { workflow_status = failed }

abbrev cache : Cache
cache = record { list = some (bob ∷ []); watched = "temp-job-2" ∷ []; invalidated = 0; toasts = [] }

watch_all_lem_example :
    NoRepeats (watch_all (add "a" ∷ remove "temp-job-2" ∷ []) cache).watched
    × (includes "a" (watch_all (add "a" ∷ remove "temp-job-2" ∷ []) cache).watched
        ≡ is_watched "a" (includes "a" cache.watched) (add "a" ∷ remove "temp-job-2" ∷ []))
watch_all_lem_example = watch_all_lem (add "a" ∷ remove "temp-job-2" ∷ []) cache "a" (refl, tt)

abbrev completed_event : OnboardingJobStreamEvent
completed_event = record { status = some (codes "COMPLETED"); error = none }

apply_event_lem_example :
    let c' = apply_event "temp-job-2" completed_event cache in
    ListUpdated "temp-job-2" completed_event cache c'
    × (includes "temp-job-2" c'.watched ≡ (
        includes "temp-job-2" cache.watched
        && not (
            is_terminal (workflow_status_of completed_event.status)
            && str_eq "temp-job-2" "temp-job-2")))
    × (c'.invalidated ≡ (
        if is_terminal (workflow_status_of completed_event.status)
        then cache.invalidated + 1
        else cache.invalidated))
apply_event_lem_example = apply_event_lem "temp-job-2" "temp-job-2" completed_event cache

shown-perm_example : Perm (shown (some (ada ∷ bob ∷ []))) (ada ∷ bob ∷ [])
unfolding optimistic_record
shown-perm_example = shown-perm (ada ∷ bob ∷ []) (refl, (refl, tt))

active_columns-can_offboard_example :
    All (All NeverOffboards) (active_columns (some (ada ∷ bob ∷ [])))
active_columns-can_offboard_example = active_columns-can_offboard (some (ada ∷ bob ∷ []))
