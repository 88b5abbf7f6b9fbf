-- ===== src/Onboarding/Card/Full.antt =====
-- `FullCard` of frontend/src/components/onboarding/OnboardingCard.tsx: the two dialogs of a card, its
-- retry, and the mutations of frontend/src/hooks/useOnboarding.ts behind them.
pub mod Sends
pub mod Posted
pub mod Answers
use Prim.Native.String.{String}
use text.Mathlib.Text.{◌==◌ as str_eq}
use it_automation_workspace.Common.{
  ℕ, suc, Bool, true, false, ◌&&◌, not, Option, none, some, List, [], ◌∷◌, or_else, if◌then◌else◌,
}
use it_automation_workspace.Onboarding.{
  OnboardedUserListItem, Cache, retry_success, retry_error, rollback_success, rollback_error,
  offboard_success, offboard_error,
}
use it_automation_workspace.Onboarding.Card.{
  can_offboard, can_retry, can_rollback, is_partial, handle_retry,
}

-- The mutations of a card.
pub data Kind : Type 0 where
  retry rollback offboard : Kind

-- What they send.
pub data Request : Type 0 where
  post_retry : (job_id : String) → (rotate_password : Bool) → Request
  post_rollback post_offboard : (user_id : String) → Request

-- The record, the state, which mutations are pending, the requests sent, latest first, how often a
-- notification said that the job is missing, and the cache of the queries.
pub record FullCard : Type 0 where
  pub item : OnboardedUserListItem
  pub confirm_open : Bool
  pub rollback_confirm_open : Bool
  pub rotate_password : Bool
  pub is_pending : Kind → Bool
  pub requests : List Request
  pub job_missing : ℕ
  pub cache : Cache

abbrev pub new_card : OnboardedUserListItem → Cache → FullCard
new_card r c = record {
  item = r;
  confirm_open = false;
  rollback_confirm_open = false;
  rotate_password = false;
  is_pending = λ k. false;
  requests = [];
  job_missing = 0;
  cache = c;
}

abbrev pub is_kind : Kind → Kind → Bool
is_kind retry retry = true
is_kind rollback rollback = true
is_kind offboard offboard = true
is_kind _ _ = false

abbrev pub with_pending : Kind → Bool → (Kind → Bool) → Kind → Bool
with_pending k b pending j = if is_kind k j then b else pending j

abbrev pub kind_of : Request → Kind
kind_of (post_retry _ _) = retry
kind_of (post_rollback _) = rollback
kind_of (post_offboard _) = offboard

-- `mutate`
unfoldable pub mutate : Request → FullCard → FullCard
mutate q c = record c {
  is_pending = with_pending (kind_of q) true c.is_pending;
  requests = q ∷ c.requests;
}

-- `handleRetry`
unfoldable pub press_retry : FullCard → FullCard
unfolding handle_retry mutate
press_retry c = elim (handle_retry c.item c.rotate_password) [
  | none ↦ record c { job_missing = suc c.job_missing }
  | some (job_id, rotate) ↦ mutate (post_retry job_id rotate) c
]

-- The button of the retry is shown, and not disabled.
unfoldable pub retry_enabled : FullCard → Bool
unfolding can_retry
retry_enabled c =
    can_retry c.item && not (c.is_pending retry) && not (str_eq (or_else c.item.job_id "") "")

-- The dialogs, which are there only where the card offers what they confirm.
unfoldable pub rollback_shown : FullCard → Bool
unfolding can_rollback
rollback_shown c = can_rollback c.item && c.rollback_confirm_open

unfoldable pub offboard_shown : FullCard → Bool
unfolding can_offboard
offboard_shown c = can_offboard c.item && c.confirm_open

-- The answer to a request: that it succeeded, for a retry with the job's id, or the status of the
-- error, if it has one.
pub data Answer : Type 0 where
  success : (job_id : String) → Answer
  error : Option ℕ → Answer

abbrev pub is_success : Answer → Bool
is_success (success _) = true
is_success (error _) = false

-- What the mutation's own callbacks do.
unfoldable pub cache_answered : Kind → Answer → Cache → Cache
unfolding retry_success retry_error rollback_success rollback_error offboard_success offboard_error
cache_answered retry (success job_id) = retry_success job_id
cache_answered retry (error status) = retry_error status
cache_answered rollback (success _) = rollback_success
cache_answered rollback (error status) = rollback_error status
cache_answered offboard (success _) = offboard_success
cache_answered offboard (error status) = offboard_error status

-- The callback that the handler of the card adds.
abbrev pub closed_by : Kind → FullCard → FullCard
closed_by retry c = c
closed_by rollback c = record c { rollback_confirm_open = false }
closed_by offboard c = record c { confirm_open = false }

unfoldable pub answered : Kind → Answer → FullCard → FullCard
unfolding cache_answered
answered k a c =
    let settled : FullCard = record c {
      is_pending = with_pending k false c.is_pending;
      cache = cache_answered k a c.cache;
    } in
    if is_success a then closed_by k settled else settled

-- What the user does, the answers, and a new record for the card. `onOpenChange` comes with `true`
-- from the trigger, with `false` from the Escape key and the like.
pub data Action : Type 0 where
  checking : Bool → Action
  retrying rollback_cancelling rollback_confirming offboard_cancelling offboard_confirming : Action
  rollback_open_change offboard_open_change : Bool → Action
  answering : Kind → Answer → Action
  rendering : OnboardedUserListItem → Action

unfoldable pub act : Action → FullCard → FullCard
unfolding can_retry can_rollback can_offboard retry_enabled press_retry rollback_shown
    offboard_shown mutate answered
act (checking b) c =
    if can_retry c.item && is_partial c.item then record c { rotate_password = b } else c
act retrying c = if retry_enabled c then press_retry c else c
act (rollback_open_change b) c =
    if can_rollback c.item then record c { rollback_confirm_open = b } else c
act rollback_cancelling c =
    if rollback_shown c && not (c.is_pending rollback)
    then record c { rollback_confirm_open = false }
    else c
act rollback_confirming c =
    if rollback_shown c && not (c.is_pending rollback)
    then mutate (post_rollback c.item.user_id) c
    else c
act (offboard_open_change b) c = if can_offboard c.item then record c { confirm_open = b } else c
act offboard_cancelling c =
    if offboard_shown c && not (c.is_pending offboard) then record c { confirm_open = false } else c
act offboard_confirming c =
    if offboard_shown c && not (c.is_pending offboard)
    then mutate (post_offboard c.item.user_id) c
    else c
act (answering k a) c = if c.is_pending k then answered k a c else c
act (rendering r) c = record c { item = r }

abbrev pub act_all : List Action → FullCard → FullCard
act_all [] c = c
act_all (a ∷ rest) c = act_all rest (act a c)
