-- ===== src/Onboarding/Card/Animation/Pulse.antt =====
-- How long a card pulses, and that the cards of the pipeline never do
-- (frontend/src/components/onboarding/OnboardingCard.tsx, frontend/src/pages/Onboarding.tsx).
use Prim.Native.String.{String}
use text.Mathlib.Text.{◌==◌ as str_eq}
use it_automation_workspace.Common.{
  ℕ, ◌+◌, ◌-◌, ◌<◌, true, false, Option, none, some, List, [], ◌∷◌, filter, All, ltb, leb, or_else,
  if◌then◌else◌, Bool-cases, inl, inr, ◌≡◌, refl, ap, ◌∙◌, arith,
}
use it_automation_workspace.Onboarding.{OnboardingWorkflowStatus, OnboardedUserListItem}
use it_automation_workspace.Onboarding.Page.{status_is, in_column, column_records}
use it_automation_workspace.Onboarding.Card.Animation.{
  Animation, mount, same_status, status_effect, elapse, Cards, kept, render_kept, render_card,
  render_cards, Event, listed, elapsed, elapse_each, column_event, column_events,
}

abbrev pub sum : List ℕ → ℕ
sum [] = 0
sum (n ∷ ns) = n + sum ns

abbrev pub elapse_all : List ℕ → Animation → Animation
elapse_all [] a = a
elapse_all (ms ∷ rest) a = elapse_all rest (elapse ms a)

elapse_all-mount :
    (ms : List ℕ) (s : OnboardingWorkflowStatus) → (elapse_all ms (mount s)).is_animating ≡ false
unfolding elapse
elapse_all-mount [] s = refl
elapse_all-mount (m ∷ ms) s = elapse_all-mount ms s

abbrev pulsing : OnboardingWorkflowStatus → ℕ → Animation
pulsing s left = record { prev_status = s; is_animating = true; timer = some left }

elapse-pulsing :
    (m left : ℕ) (s : OnboardingWorkflowStatus)
    → elapse m (pulsing s left) ≡ (if leb left m then mount s else pulsing s (left - m))
unfolding elapse
elapse-pulsing m left s = ground arith

elapse_all-pulsing :
    (ms : List ℕ) (s : OnboardingWorkflowStatus) (left : ℕ)
    → 0 < left
    → (elapse_all ms (pulsing s left)).is_animating ≡ ltb (sum ms) left
elapse_all-pulsing [] s left pos = ground arith
elapse_all-pulsing (m ∷ ms) s left pos =
    ap (λ a. (elapse_all ms a).is_animating) (elapse-pulsing m left s)
    ∙ elim (Bool-cases (leb left m)) [
      | inl over ↦ rw (over, elapse_all-mount ms s) (ground arith)
      | inr more ↦ rw (more, elapse_all-pulsing ms s (left - m) (ground arith)) (ground arith)
    ]

-- A card whose status changes pulses for 1.8 seconds after that, however that time is divided, and
-- no longer, also if it was still pulsing.
pub elapse_all-status_effect :
    (a : Animation) (status : OnboardingWorkflowStatus) (ms : List ℕ)
    → same_status a.prev_status status ≡ false
    → (elapse_all ms (status_effect status a)).is_animating ≡ ltb (sum ms) 1800
unfolding status_effect
elapse_all-status_effect a status ms e = rw e (elapse_all-pulsing ms status 1800 (omega arith))

abbrev pub IsStill : OnboardingWorkflowStatus → String × Animation → Type 0
IsStill id (key, a) =
    (status_is a.prev_status id ≡ true) × (a.is_animating ≡ false) × (a.timer ≡ none)

abbrev IsStillIfAny : OnboardingWorkflowStatus → String → Option Animation → Type 0
IsStillIfAny id user_id none = Unit
IsStillIfAny id user_id (some a) = IsStill id (user_id, a)

kept-IsStill :
    (id : OnboardingWorkflowStatus) (user_id : String) (cards : Cards)
    → All (IsStill id) cards
    → IsStillIfAny id user_id (kept user_id cards)
kept-IsStill id user_id [] h = tt
kept-IsStill id user_id ((key, b) ∷ cards) h = elim (Bool-cases (str_eq key user_id)) [
  | inl here ↦ rw here h.0
  | inr there ↦ rw there (kept-IsStill id user_id cards h.1)
]

same_status_lem :
    (s t id : OnboardingWorkflowStatus)
    → status_is s id ≡ true
    → status_is t id ≡ true
    → same_status s t ≡ true
same_status_lem s t id h k = ground arith

render_kept-IsStill :
    (id : OnboardingWorkflowStatus) (user_id : String) (status : OnboardingWorkflowStatus)
    → (before : Option Animation) → IsStillIfAny id user_id before
    → status_is status id ≡ true
    → IsStill id (user_id, render_kept status before)
unfolding render_kept status_effect
render_kept-IsStill id user_id status none h e = (e, refl, refl)
render_kept-IsStill id user_id status (some a) h e =
    rw (same_status_lem a.prev_status status id h.0 e) h

render_card-IsStill :
    (id : OnboardingWorkflowStatus) (cards : Cards) (r : OnboardedUserListItem)
    → All (IsStill id) cards
    → in_column id r ≡ true
    → IsStill id (r.user_id, render_card cards r)
unfolding render_card
render_card-IsStill id cards r h e =
    render_kept-IsStill id r.user_id r.workflow_status (kept r.user_id cards)
      (kept-IsStill id r.user_id cards h) (ground arith)

render_cards-IsStill :
    (id : OnboardingWorkflowStatus) (cards : Cards) (rs : List OnboardedUserListItem)
    → All (IsStill id) cards
    → All (IsStill id) (render_cards cards (filter (in_column id) rs))
render_cards-IsStill id cards [] h = tt
render_cards-IsStill id cards (r ∷ rs) h = elim (Bool-cases (in_column id r)) [
  | inl e ↦ rw e (render_card-IsStill id cards r h e, render_cards-IsStill id cards rs h)
  | inr e ↦ rw e (render_cards-IsStill id cards rs h)
]

elapse-IsStill :
    (id : OnboardingWorkflowStatus) (key : String) (ms : ℕ) (a : Animation)
    → IsStill id (key, a)
    → IsStill id (key, elapse ms a)
unfolding elapse
elapse-IsStill id key ms a h = ground arith

elapse_each-IsStill :
    (id : OnboardingWorkflowStatus) (ms : ℕ) (cards : Cards)
    → All (IsStill id) cards
    → All (IsStill id) (elapse_each ms cards)
unfolding elapse
elapse_each-IsStill id ms [] h = tt
elapse_each-IsStill id ms ((key, a) ∷ cards) h =
    (elapse-IsStill id key ms a h.0, elapse_each-IsStill id ms cards h.1)

column_event-IsStill :
    (id : OnboardingWorkflowStatus) (e : Event) (cards : Cards)
    → All (IsStill id) cards
    → All (IsStill id) (column_event id e cards)
unfolding column_event column_records
column_event-IsStill id (listed records) cards h =
    render_cards-IsStill id cards (or_else records []) h
column_event-IsStill id (elapsed ms) cards h = elapse_each-IsStill id ms cards h

-- The cards of a column never pulse: a card whose status changes moves to another column, where it
-- is mounted anew.
pub column_events-IsStill :
    (id : OnboardingWorkflowStatus) (events : List Event) (cards : Cards)
    → All (IsStill id) cards
    → All (IsStill id) (column_events id events cards)
column_events-IsStill id [] cards h = h
column_events-IsStill id (e ∷ es) cards h =
    column_events-IsStill id es (column_event id e cards) (column_event-IsStill id e cards h)
