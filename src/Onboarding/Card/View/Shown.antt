-- ===== src/Onboarding/Card/View/Shown.antt =====
-- What a card shows and what its buttons do
-- (frontend/src/components/onboarding/OnboardingCard.tsx).
use it_automation_workspace.Common.{
  suc, Bool, true, false, ◌&&◌, not, Option, none, some, length, Bool-cases, inl, inr,
  if◌then◌else◌, ◌≡◌, refl, ap, arith,
}
use it_automation_workspace.Onboarding.{
  OnboardingWorkflowStatus, pending, ad_creating, email_sending, jira_creating, partially_complete,
  completed, failed, unlisted,
}
use it_automation_workspace.Onboarding.Page.Pipeline.{IsListed, is_listed}
use it_automation_workspace.Onboarding.Card.Full.{
  FullCard, rollback, offboard, retry_enabled, rollback_shown, offboard_shown, mutate, retrying,
  rollback_confirming, offboard_confirming, act,
}
use it_automation_workspace.Onboarding.Card.View.{
  RetryView, StatusConfig, DialogView, FullView, retry_view, rollback_view, offboard_view,
  status_config, full_view_of, full_view,
}
use it_automation_workspace.Onboarding.Card.Full.Sends.{press_retry_lem}

abbrev pub retry_usable : Option RetryView → Bool
retry_usable none = false
retry_usable (some v) = not v.button.is_disabled

abbrev pub confirm_usable : Option DialogView → Bool
confirm_usable none = false
confirm_usable (some v) = not v.confirm.is_disabled

retry_view-usable : (c : FullCard) → retry_usable (retry_view c) ≡ retry_enabled c
unfolding retry_view retry_enabled
retry_view-usable c = ground arith

rollback_view-usable :
    (c : FullCard)
    → confirm_usable (rollback_view c) ≡ rollback_shown c && not (c.is_pending rollback)
unfolding rollback_view
rollback_view-usable c = ground arith

offboard_view-usable :
    (c : FullCard)
    → confirm_usable (offboard_view c) ≡ offboard_shown c && not (c.is_pending offboard)
unfolding offboard_view
offboard_view-usable c = ground arith

-- A request more, if it is sent.
abbrev pub Sends : FullCard → FullCard → Bool → Type 0
Sends c d b = length d.requests ≡ (if b then suc (length c.requests) else length c.requests)

act-retrying : (c : FullCard) → Sends c (act retrying c) (retry_enabled c)
unfolding act mutate
act-retrying c = elim (Bool-cases (retry_enabled c)) [
  | inl e ↦ rw e (ap (λ d. length d.requests) (press_retry_lem c e))
  | inr e ↦ rw e refl
]

act-rollback_confirming :
    (c : FullCard)
    → Sends c (act rollback_confirming c) (rollback_shown c && not (c.is_pending rollback))
unfolding act mutate
act-rollback_confirming c = ground arith

act-offboard_confirming :
    (c : FullCard)
    → Sends c (act offboard_confirming c) (offboard_shown c && not (c.is_pending offboard))
unfolding act mutate
act-offboard_confirming c = ground arith

status_config-is_listed :
    (s : OnboardingWorkflowStatus)
    → is_listed s ≡ true
    → (config : StatusConfig) × (status_config s ≡ some config)
unfolding status_config
status_config-is_listed pending h = (_, refl)
status_config-is_listed ad_creating h = (_, refl)
status_config-is_listed email_sending h = (_, refl)
status_config-is_listed jira_creating h = (_, refl)
status_config-is_listed partially_complete h = (_, refl)
status_config-is_listed completed h = (_, refl)
status_config-is_listed failed h = (_, refl)
status_config-is_listed (unlisted t) h = ground arith

-- A card whose status is in the union is drawn. Its buttons that retry, delete and offboard send a
-- request exactly when they are there and not disabled.
pub full_view-Sends :
    (show_logs : Bool) (c : FullCard)
    → IsListed c.item
    → (v : FullView) × (full_view show_logs c ≡ some v)
      × Sends c (act retrying c) (retry_usable v.retry_part)
      × Sends c (act rollback_confirming c) (confirm_usable v.rollback_dialog)
      × Sends c (act offboard_confirming c) (confirm_usable v.offboard_dialog)
unfolding full_view
full_view-Sends show_logs c h =
    let (config, e) = status_config-is_listed c.item.workflow_status h in
    (
      full_view_of show_logs c config,
      rw (full_view, e) refl,
      rw (retry_view-usable c) (act-retrying c),
      rw (rollback_view-usable c) (act-rollback_confirming c),
      rw (offboard_view-usable c) (act-offboard_confirming c),
    )
