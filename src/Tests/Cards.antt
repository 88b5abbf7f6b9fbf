-- ===== src/Tests/Cards.antt =====
-- The cards and the numbers of the pipeline.
use it_automation_workspace.Common.{
  suc, true, false, ◌&&◌, not, some, List, [], ◌∷◌, ◌⊎◌, All, ◌≤◌, ◌≡◌, refl,
}
use it_automation_workspace.Onboarding.{
  OnboardedUserListItem, OnboardRequest, optimistic_record, Cache, partially_complete, failed,
  completed, rollback_refused, rolled_back, user_not_found, rollback_failed,
}
use it_automation_workspace.Onboarding.Card.Animation.{column_events, listed, elapsed}
use it_automation_workspace.Onboarding.Card.Animation.Pulse.{IsStill, column_events-IsStill}
use it_automation_workspace.Onboarding.Card.Full.{
  FullCard, Request, Action, offboard_confirming, new_card, rollback, post_rollback, retrying,
  rollback_open_change, rollback_confirming, answering, error, act, act_all, rollback_shown,
  is_success,
}
use it_automation_workspace.Onboarding.Card.Full.Sends.{MaySend, act-SendsAtMost}
use it_automation_workspace.Onboarding.Card.Full.Posted.{count, answers, act_all-count}
use it_automation_workspace.Onboarding.Card.Full.Answers.{said, told, act_all-rollback_confirming}
use it_automation_workspace.Onboarding.Card.View.{FullView, full_view}
use it_automation_workspace.Onboarding.Card.View.Shown.{
  Sends, retry_usable, confirm_usable, full_view-Sends,
}
use it_automation_workspace.Onboarding.Page.View.{Pipeline, new_page, pipeline, onboarding_page}
use it_automation_workspace.Onboarding.Page.View.Numbers.{ShowsNumbers, onboarding_page-numbers_of}

abbrev request : OnboardRequest
request = record {
  first_name = "Ada";
  last_name = "Lovelace";
  email = "ada@example.org";
  department = "IT";
  job_title = "Analyst";
}

abbrev stuck : OnboardedUserListItem
stuck = record (optimistic_record request "1" "2026") { workflow_status = partially_complete }

abbrev broken : OnboardedUserListItem
broken = record (optimistic_record request "2" "2026") { workflow_status = failed }

abbrev done : OnboardedUserListItem
done = record (optimistic_record request "3" "2026") { workflow_status = completed }

abbrev cache : Cache
cache = record { list = some (stuck ∷ broken ∷ []); watched = []; invalidated = 0; toasts = [] }

-- The dialog of the deletion is open.
abbrev asked : FullCard
asked = record (new_card broken cache) { rollback_confirm_open = true }

column_events-IsStill_example : All (IsStill failed) (
    column_events failed
      (listed (some (stuck ∷ broken ∷ [])) ∷ elapsed 20000 ∷ listed (some (broken ∷ [])) ∷ [])
      [])
column_events-IsStill_example =
    column_events-IsStill failed
      (listed (some (stuck ∷ broken ∷ [])) ∷ elapsed 20000 ∷ listed (some (broken ∷ [])) ∷ []) [] tt

act-SendsAtMost_example :
    ((act rollback_confirming asked).requests ≡ asked.requests)
    ⊎ ((q : Request) × ((act rollback_confirming asked).requests ≡ q ∷ asked.requests)
        × MaySend asked q)
act-SendsAtMost_example = act-SendsAtMost rollback_confirming asked

abbrev pressed : List Action
pressed =
    rollback_open_change true
    ∷ rollback_confirming
    ∷ rollback_confirming
    ∷ answering rollback (error (some 409))
    ∷ rollback_confirming
    ∷ retrying
    ∷ []

act_all-count_example :
    (count rollback (act_all pressed (new_card broken cache)).requests
      ≤ suc (answers rollback pressed))
    × ((act_all pressed (new_card broken cache)).job_missing ≡ 0)
act_all-count_example = act_all-count rollback pressed broken cache

-- The second press sends nothing; the third does.
pressed_count : count rollback (act_all pressed (new_card broken cache)).requests ≡ 2
unfolding act optimistic_record
pressed_count = refl

act_all-rollback_confirming_example :
    let a = error (some 409) in
    let d = act_all (rollback_confirming ∷ answering rollback a ∷ []) asked in
    (d.requests ≡ post_rollback broken.user_id ∷ [])
    × (d.cache ≡ told (said rolled_back rollback_refused user_not_found rollback_failed a) a cache)
    × (rollback_shown d && not (d.is_pending rollback) ≡ not (is_success a))
unfolding rollback_shown optimistic_record
act_all-rollback_confirming_example = act_all-rollback_confirming asked (error (some 409)) refl

onboarding_page-numbers_of_example :
    (p : Pipeline) × (onboarding_page
        (λ s. s)
        false
        false
        (some (stuck ∷ broken ∷ done ∷ []))
        new_page
      ≡ pipeline p)
    × ShowsNumbers (stuck ∷ broken ∷ done ∷ []) p
onboarding_page-numbers_of_example =
    onboarding_page-numbers_of (λ s. s) (stuck ∷ broken ∷ done ∷ []) new_page
      (refl, (refl, (refl, tt)))

full_view-Sends_example :
    (v : FullView) × (full_view false asked ≡ some v)
    × Sends asked (act retrying asked) (retry_usable v.retry_part)
    × Sends asked (act rollback_confirming asked) (confirm_usable v.rollback_dialog)
    × Sends asked (act offboard_confirming asked) (confirm_usable v.offboard_dialog)
full_view-Sends_example = full_view-Sends false asked refl
