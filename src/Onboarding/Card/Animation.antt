-- ===== src/Onboarding/Card/Animation.antt =====
-- `useStatusAnimation` of frontend/src/components/onboarding/OnboardingCard.tsx: the pulse of a card
-- whose status has changed, and the cards of a column, which React keeps by the keys that
-- frontend/src/pages/Onboarding.tsx gives them.
pub mod Pulse
use Prim.Native.String.{String}
use text.Mathlib.Text.{◌==◌ as str_eq}
use it_automation_workspace.Common.{
  ℕ, ◌-◌, Bool, true, false, ◌||◌, Option, none, some, List, [], ◌∷◌, Text, text_eq, leb,
  if◌then◌else◌,
}
use it_automation_workspace.Onboarding.{OnboardingWorkflowStatus, unlisted, OnboardedUserListItem}
use it_automation_workspace.Onboarding.Page.{status_is, column_records}

-- The status of the last effect, the state, and the time left on the effect's timer.
pub record Animation : Type 0 where
  pub prev_status : OnboardingWorkflowStatus
  pub is_animating : Bool
  pub timer : Option ℕ

abbrev pub mount : OnboardingWorkflowStatus → Animation
mount status = record { prev_status = status; is_animating = false; timer = none }

-- `===`, also on what is not in the union
abbrev pub same_text : Option Text → Option Text → Bool
same_text none none = true
same_text (some s) (some t) = text_eq s t
same_text _ _ = false

abbrev pub same_unlisted : OnboardingWorkflowStatus → OnboardingWorkflowStatus → Bool
same_unlisted (unlisted s) (unlisted t) = same_text s t
same_unlisted _ _ = false

abbrev pub same_status : OnboardingWorkflowStatus → OnboardingWorkflowStatus → Bool
same_status s t = status_is s t || same_unlisted s t

-- The effect after the card was rendered with a status. Where it runs again, the timer of the last
-- run is cleared.
unfoldable pub status_effect : OnboardingWorkflowStatus → Animation → Animation
status_effect status a =
    if same_status a.prev_status status
    then a
    else record { prev_status = status; is_animating = true; timer = some 1800 }

-- Milliseconds pass.
unfoldable pub elapse : ℕ → Animation → Animation
elapse ms a = elim a.timer [
  | none ↦ a
  | some left ↦
      if leb left ms
      then record a { is_animating = false; timer = none }
      else record a { timer = some (left - ms) }
]

-- The animations of a column's cards, by the keys of the cards.
abbrev pub Cards : Type 0
Cards = List (String × Animation)

abbrev pub kept : String → Cards → Option Animation
kept user_id [] = none
kept user_id ((key, a) ∷ cards) = if str_eq key user_id then some a else kept user_id cards

-- A card that was in the column is rendered again; the others are mounted.
unfoldable pub render_kept : OnboardingWorkflowStatus → Option Animation → Animation
unfolding status_effect
render_kept status none = mount status
render_kept status (some a) = status_effect status a

unfoldable pub render_card : Cards → OnboardedUserListItem → Animation
unfolding render_kept
render_card cards r = render_kept r.workflow_status (kept r.user_id cards)

abbrev pub render_cards : Cards → List OnboardedUserListItem → Cards
render_cards cards [] = []
render_cards cards (r ∷ rs) = (r.user_id, render_card cards r) ∷ render_cards cards rs

-- The page is rendered with a list of records, or time passes.
pub data Event : Type 0 where
  listed : Option (List OnboardedUserListItem) → Event
  elapsed : ℕ → Event

abbrev pub elapse_each : ℕ → Cards → Cards
elapse_each ms [] = []
elapse_each ms ((key, a) ∷ cards) = (key, elapse ms a) ∷ elapse_each ms cards

module _ (id : OnboardingWorkflowStatus) where
  unfoldable pub column_event : Event → Cards → Cards
  unfolding column_records render_card elapse
  column_event (listed records) cards = render_cards cards (column_records records id)
  column_event (elapsed ms) cards = elapse_each ms cards

  abbrev pub column_events : List Event → Cards → Cards
  column_events [] cards = cards
  column_events (e ∷ es) cards = column_events es (column_event e cards)
