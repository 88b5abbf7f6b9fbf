-- ===== src/Onboarding/Card/Timeline.antt =====
-- The timelines and the log of a card (frontend/src/components/onboarding/OnboardingCard.tsx).
use it_automation_workspace.Common.{
  ℕ, ◌≤◌, Bool, true, false, not, some, ◌++◌, filter, drop, length, ◌≡◌, arith,
}
use it_automation_workspace.Onboarding.{OnboardedUserListItem, OnboardingWorkflowStatus}
use it_automation_workspace.Onboarding.Card.{
  Mark, ahead, steps, find_index, current_step_index, effective_step_index, display_steps, mark,
  timeline, compact_timeline, simulation_log,
}

abbrev pub is_ahead : OnboardingWorkflowStatus × Mark → Bool
is_ahead (_, ahead) = true
is_ahead (_, _) = false

-- A record whose status is a step of the timeline: its full card shows the steps that its compact
-- card draws as reached, with the same marks.
pub timeline-compact_timeline :
    (r : OnboardedUserListItem) (i : ℕ)
    → current_step_index r ≡ some i
    → timeline r ≡ filter (λ s. not (is_ahead s)) (compact_timeline r)
unfolding find_index current_step_index effective_step_index display_steps mark timeline
    compact_timeline
timeline-compact_timeline r i at = ground arith

-- When the status of a record advances to a later step, its log keeps the entries that it had, and
-- goes on after them.
pub simulation_log-advance :
    (r : OnboardedUserListItem) (s t : OnboardingWorkflowStatus) (i j : ℕ)
    → find_index s steps ≡ some i
    → find_index t steps ≡ some j
    → i ≤ j
    → let before = simulation_log (record r { workflow_status = s }) in
      let after = simulation_log (record r { workflow_status = t }) in
      after ≡ before ++ drop (length before) after
unfolding find_index simulation_log
simulation_log-advance r s t i j at_s at_t le = ground arith
