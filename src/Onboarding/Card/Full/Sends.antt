-- ===== src/Onboarding/Card/Full/Sends.antt =====
-- What a card sends (frontend/src/components/onboarding/OnboardingCard.tsx).
use Prim.Native.String.{String}
use text.Mathlib.Text.{◌==◌ as str_eq}
use it_automation_workspace.Common.{
  or_else, Bool, true, false, ◌&&◌, not, Option, none, some, ◌∷◌, ◌⊎◌, inl, inr, Bool-cases,
  if◌then◌else◌, ◌≡◌, refl, ap, ◌∙◌, arith,
}
use it_automation_workspace.Onboarding.{
  OnboardingWorkflowStatus, OnboardedUserListItem, active, completed, partially_complete, failed,
}
use it_automation_workspace.Onboarding.Page.{status_is, is_offboarded}
use it_automation_workspace.Onboarding.Card.{
  can_offboard, can_retry, can_rollback, is_failed, is_partial, handle_retry,
}
use it_automation_workspace.Onboarding.Card.Full.{
  Kind, retry, rollback, offboard, Request, post_retry, post_rollback, post_offboard, FullCard,
  kind_of, mutate, press_retry, retry_enabled, rollback_shown, offboard_shown, Action, Answer,
  checking, retrying, rollback_open_change, rollback_cancelling, rollback_confirming,
  offboard_open_change, offboard_cancelling, offboard_confirming, answering, rendering, act,
  answered, success, error,
}

-- When a card may send a request.
abbrev pub MaySend : FullCard → Request → Type 0
MaySend c (post_retry job_id rotate) =
    (c.item.job_id ≡ some job_id)
    × (c.is_pending retry ≡ false)
    × (c.item.status ≡ active)
    × ((c.item.workflow_status ≡ failed) × (rotate ≡ true)
        ⊎ (c.item.workflow_status ≡ partially_complete) × (rotate ≡ c.rotate_password))
MaySend c (post_rollback user_id) =
    (user_id ≡ c.item.user_id)
    × (c.is_pending rollback ≡ false)
    × (c.rollback_confirm_open ≡ true)
    × (c.item.status ≡ active)
    × ((c.item.workflow_status ≡ failed) ⊎ (c.item.workflow_status ≡ partially_complete))
MaySend c (post_offboard user_id) =
    (user_id ≡ c.item.user_id)
    × (c.is_pending offboard ≡ false)
    × (c.confirm_open ≡ true)
    × (c.item.status ≡ active)
    × (c.item.workflow_status ≡ completed)

-- Nothing is sent and no notification of the card is shown.
abbrev pub IsQuiet : FullCard → FullCard → Type 0
IsQuiet c d =
    (d.requests ≡ c.requests) × (d.is_pending ≡ c.is_pending) × (d.job_missing ≡ c.job_missing)

-- What an action does that is not an answer.
abbrev pub Outcome : FullCard → FullCard → Type 0
Outcome c d = IsQuiet c d ⊎ ((q : Request) × (d ≡ mutate q c) × MaySend c q)

abbrev pub IsAnswer : Action → Type 0
IsAnswer a = (k : Kind) × (answer : Answer) × (a ≡ answering k answer)

if-IsQuiet : (b : Bool) (c d : FullCard) → IsQuiet c d → IsQuiet c (if b then d else c)
if-IsQuiet true c d h = h
if-IsQuiet false c d h = (refl, refl, refl)

quiet : (c : FullCard) (b : Bool) (d : FullCard) → IsQuiet c d → Outcome c (if b then d else c)
quiet c b d h = inl (if-IsQuiet b c d h)

job_id_lem : (o : Option String) → str_eq (or_else o "") "" ≡ false → o ≡ some (or_else o "")
job_id_lem none e = ground arith
job_id_lem (some s) e = refl

status_is-failed : (s : OnboardingWorkflowStatus) → status_is s failed ≡ true → s ≡ failed
status_is-failed s e = ground arith

status_is-partially_complete :
    (s : OnboardingWorkflowStatus) → status_is s partially_complete ≡ true → s ≡ partially_complete
status_is-partially_complete s e = ground arith

status_is-completed : (s : OnboardingWorkflowStatus) → status_is s completed ≡ true → s ≡ completed
status_is-completed s e = ground arith

is_active_lem : (r : OnboardedUserListItem) → is_offboarded r ≡ false → r.status ≡ active
is_active_lem r e = ground arith

rotates_lem :
    (r : OnboardedUserListItem) (rotate : Bool)
    → can_retry r ≡ true
    → (r.workflow_status ≡ failed) × ((if is_partial r then rotate else true) ≡ true)
      ⊎ (r.workflow_status ≡ partially_complete)
        × ((if is_partial r then rotate else true) ≡ rotate)
unfolding can_retry
rotates_lem r rotate h = elim (Bool-cases (is_partial r)) [
  | inl e ↦ inr (status_is-partially_complete r.workflow_status e, rw e refl)
  | inr e ↦ inl (status_is-failed r.workflow_status (ground arith), rw e refl)
]

can_rollback_lem :
    (r : OnboardedUserListItem)
    → can_rollback r ≡ true
    → (r.status ≡ active)
      × ((r.workflow_status ≡ failed) ⊎ (r.workflow_status ≡ partially_complete))
unfolding can_rollback
can_rollback_lem r h = (
  is_active_lem r (ground arith),
  elim (Bool-cases (is_failed r)) [
    | inl e ↦ inl (status_is-failed r.workflow_status e)
    | inr e ↦ inr (status_is-partially_complete r.workflow_status (ground arith))
  ],
)

press_retry-MaySend :
    (c : FullCard)
    → retry_enabled c ≡ true
    → MaySend c (
        post_retry
          (or_else c.item.job_id "")
          (if is_partial c.item then c.rotate_password else true))
unfolding retry_enabled can_retry
press_retry-MaySend c e = (
  job_id_lem c.item.job_id (ground arith),
  ground arith,
  is_active_lem c.item (ground arith),
  rotates_lem c.item c.rotate_password (ground arith),
)

pub press_retry_lem :
    (c : FullCard)
    → retry_enabled c ≡ true
    → press_retry c
      ≡ mutate
          (post_retry
            (or_else c.item.job_id "")
            (if is_partial c.item then c.rotate_password else true))
          c
unfolding press_retry retry_enabled handle_retry
press_retry_lem c e =
    let named : str_eq (or_else c.item.job_id "") "" ≡ false = ground arith in
    rw (press_retry, named) refl

rollback_confirming-MaySend :
    (c : FullCard)
    → rollback_shown c && not (c.is_pending rollback) ≡ true
    → MaySend c (post_rollback c.item.user_id)
unfolding rollback_shown can_rollback
rollback_confirming-MaySend c e =
    let (is_active, ended) = can_rollback_lem c.item (ground arith) in
    (refl, ground arith, ground arith, is_active, ended)

offboard_confirming-MaySend :
    (c : FullCard)
    → offboard_shown c && not (c.is_pending offboard) ≡ true
    → MaySend c (post_offboard c.item.user_id)
unfolding offboard_shown can_offboard
offboard_confirming-MaySend c e = (
  refl,
  ground arith,
  ground arith,
  is_active_lem c.item (ground arith),
  status_is-completed c.item.workflow_status (ground arith),
)

sends :
    (c : FullCard) (b : Bool) (q : Request)
    → (b ≡ true → MaySend c q)
    → Outcome c (if b then mutate q c else c)
sends c true q h = inr (q, refl, h refl)
sends c false q h = inl (refl, refl, refl)

pub act-Outcome : (a : Action) (c : FullCard) → IsAnswer a ⊎ Outcome c (act a c)
unfolding act
act-Outcome (checking b) c = inr (
    quiet c (can_retry c.item && is_partial c.item) (record c { rotate_password = b })
      (refl, refl, refl))
act-Outcome retrying c = elim (Bool-cases (retry_enabled c)) [
  | inl on ↦ rw on (inr (inr (_, press_retry_lem c on, press_retry-MaySend c on)))
  | inr off ↦ rw off (inr (inl (refl, refl, refl)))
]
act-Outcome (rollback_open_change b) c =
    inr (quiet c (can_rollback c.item) (record c { rollback_confirm_open = b }) (refl, refl, refl))
act-Outcome rollback_cancelling c = inr (
    quiet c (rollback_shown c && not (c.is_pending rollback))
      (record c { rollback_confirm_open = false }) (refl, refl, refl))
act-Outcome rollback_confirming c = inr (
    sends c (rollback_shown c && not (c.is_pending rollback)) (post_rollback c.item.user_id)
      (rollback_confirming-MaySend c))
act-Outcome (offboard_open_change b) c =
    inr (quiet c (can_offboard c.item) (record c { confirm_open = b }) (refl, refl, refl))
act-Outcome offboard_cancelling c = inr (
    quiet c (offboard_shown c && not (c.is_pending offboard)) (record c { confirm_open = false })
      (refl, refl, refl))
act-Outcome offboard_confirming c = inr (
    sends c (offboard_shown c && not (c.is_pending offboard)) (post_offboard c.item.user_id)
      (offboard_confirming-MaySend c))
act-Outcome (answering k a) c = inl (k, a, refl)
act-Outcome (rendering r) c = inr (inl (refl, refl, refl))

answered_lem :
    (k : Kind) (a : Answer) (c : FullCard)
    → ((answered k a c).requests ≡ c.requests)
      × ((answered k a c).is_pending k ≡ false)
      × ((answered k a c).job_missing ≡ c.job_missing)
unfolding answered
answered_lem retry (success job_id) c = (refl, refl, refl)
answered_lem rollback (success job_id) c = (refl, refl, refl)
answered_lem offboard (success job_id) c = (refl, refl, refl)
answered_lem retry (error status) c = (refl, refl, refl)
answered_lem rollback (error status) c = (refl, refl, refl)
answered_lem offboard (error status) c = (refl, refl, refl)

pub act-answering :
    (k : Kind) (a : Answer) (c : FullCard)
    → ((act (answering k a) c).requests ≡ c.requests)
      × ((act (answering k a) c).is_pending k ≡ false)
      × ((act (answering k a) c).job_missing ≡ c.job_missing)
unfolding act
act-answering k a c = elim (Bool-cases (c.is_pending k)) [
  | inl on ↦ rw on (answered_lem k a c)
  | inr off ↦ (rw off refl, rw off off, rw off refl)
]

-- A card sends at most one request by an action, and only one that fits its record, whose employee
-- has not left: a record is deleted from its open dialog, and only if its workflow has failed or is
-- partially complete; an employee is offboarded from the other dialog, and only if it is completed; a
-- retry names the record's job, and asks for a new password after a failure, but by the checkbox
-- after a partial success. None is sent while one of the kind is pending.
pub act-SendsAtMost :
    (a : Action) (c : FullCard)
    → ((act a c).requests ≡ c.requests)
      ⊎ ((q : Request) × ((act a c).requests ≡ q ∷ c.requests) × MaySend c q)
unfolding mutate
act-SendsAtMost a c = elim (act-Outcome a c) [
  | inl (k, answer, e) ↦ inl (ap (λ b. (act b c).requests) e ∙ (act-answering k answer c).0)
  | inr (inl q) ↦ inl q.0
  | inr (inr (q, e, may)) ↦ inr (q, ap (λ d. d.requests) e, may)
]

pub MaySend-is_pending :
    (c : FullCard) (q : Request) → MaySend c q → c.is_pending (kind_of q) ≡ false
MaySend-is_pending c (post_retry job_id rotate) h = h.1
MaySend-is_pending c (post_rollback user_id) h = h.1
MaySend-is_pending c (post_offboard user_id) h = h.1
