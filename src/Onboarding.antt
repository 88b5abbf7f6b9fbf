-- ===== src/Onboarding.antt =====
-- Onboarding of employees: the types of frontend/src/types/onboarding.ts, and the cache that the
-- hooks of frontend/src/hooks/useOnboarding.ts share: the list of records and the watched jobs.
pub mod JobStream
pub mod Silence
pub mod Watching
pub mod Mutations
pub mod Card
pub mod Form
pub mod Page
use Prim.Native.String
use Prim.Native.String.{String}
use text.Mathlib.Text.{◌==◌ as str_eq}
use it_automation_workspace.Common.{
  ℕ, ◌+◌, Bool, true, false, not, ◌||◌, Option, none, some, List, [], ◌∷◌, ◌++◌, Text, codes,
  text_eq, map, any, filter, or_else, if◌then◌else◌, ◌==◌,
}

pub data ProvisioningSource : Type 0 where
  local ldap entra_id : ProvisioningSource

pub data UserStatus : Type 0 where
  active offboarded : UserStatus

-- `OnboardingWorkflowStatus`, and what the cast in `applyEvent` lets through beside it: another
-- text, or no status at all.
pub data OnboardingWorkflowStatus : Type 0 where
  pending ad_creating email_sending jira_creating : OnboardingWorkflowStatus
  partially_complete completed failed : OnboardingWorkflowStatus
  unlisted : Option Text → OnboardingWorkflowStatus

pub record OnboardRequest : Type 0 where
  pub first_name : String
  pub last_name : String
  pub email : String
  pub department : String
  pub job_title : String

pub record OnboardedUserListItem : Type 0 where
  pub user_id : String
  pub job_id : Option String
  pub external_id : Option String
  pub first_name : String
  pub last_name : String
  pub email : String
  pub department : String
  pub job_title : String
  pub status : UserStatus
  pub workflow_status : OnboardingWorkflowStatus
  pub provisioning_source : ProvisioningSource
  pub requested_by : Option String
  pub error_message : Option Text
  pub created_at : String
  pub offboarded_at : Option String

-- `status as OnboardingWorkflowStatus`
unfoldable pub workflow_status_of : Option Text → OnboardingWorkflowStatus
workflow_status_of none = unlisted none
workflow_status_of (some s) =
    if text_eq s (codes "PENDING")
    then pending
    else if text_eq s (codes "AD_CREATING")
    then ad_creating
    else if text_eq s (codes "EMAIL_SENDING")
    then email_sending
    else if text_eq s (codes "JIRA_CREATING")
    then jira_creating
    else if text_eq s (codes "PARTIALLY_COMPLETE")
    then partially_complete
    else if text_eq s (codes "COMPLETED")
    then completed
    else if text_eq s (codes "FAILED")
    then failed
    else unlisted (some s)

-- `TERMINAL_STATUSES.has(status)`
abbrev pub is_terminal : OnboardingWorkflowStatus → Bool
is_terminal completed = true
is_terminal failed = true
is_terminal partially_complete = true
is_terminal status = false

-- The texts of the notifications, by what they say.
pub data Toast : Type 0 where
  create_failed create_started retry_started not_retryable retry_failed : Toast
  rolled_back rollback_refused user_not_found rollback_failed : Toast
  access_revoked offboard_refused offboard_failed : Toast

-- The part of the query cache that the hooks use, how often the list has been invalidated, and the
-- notifications shown.
pub record Cache : Type 0 where
  pub list : Option (List OnboardedUserListItem)
  pub watched : List String
  pub invalidated : ℕ
  pub toasts : List Toast

abbrev pub includes : String → List String → Bool
includes id ids = any (λ i. str_eq i id) ids

unfoldable pub add_watched_job : String → Cache → Cache
add_watched_job job_id c = record c {
  watched = if includes job_id c.watched then c.watched else c.watched ++ job_id ∷ [];
}

unfoldable pub remove_watched_job : String → Cache → Cache
remove_watched_job job_id c = record c { watched = filter (λ id. not (str_eq id job_id)) c.watched }

unfoldable pub invalidate_list : Cache → Cache
invalidate_list c = record c { invalidated = c.invalidated + 1 }

unfoldable pub show : Toast → Cache → Cache
show t c = record c { toasts = c.toasts ++ t ∷ [] }

-- `useCreateOnboarding`. `now` and `iso` are the texts of `Date.now()` and of the date.
unfoldable pub optimistic_record : OnboardRequest → (now iso : String) → OnboardedUserListItem
optimistic_record r now iso = record {
  user_id = String.◌++◌ "temp-" now;
  job_id = some (String.◌++◌ "temp-job-" now);
  external_id = none;
  first_name = r.first_name;
  last_name = r.last_name;
  email = r.email;
  department = r.department;
  job_title = r.job_title;
  status = active;
  workflow_status = pending;
  provisioning_source = local;
  requested_by = some "Current User";
  error_message = none;
  created_at = iso;
  offboarded_at = none;
}

-- `onMutate`: the new cache, and the context with the previous data.
unfoldable pub create_mutate : OnboardedUserListItem → Cache → Cache × List OnboardedUserListItem
create_mutate item c =
    let previous = or_else c.list [] in (record c { list = some (previous ++ item ∷ []) }, previous)

-- `onError`, with that context
unfoldable pub create_error : List OnboardedUserListItem → Cache → Cache
unfolding show
create_error previous c = show create_failed (record c { list = some previous })

-- `onSuccess`, with the answer's `job_id`
unfoldable pub create_success : String → Cache → Cache
unfolding show add_watched_job invalidate_list
create_success job_id c = invalidate_list (add_watched_job job_id (show create_started c))

-- `useRetryOnboarding`
unfoldable pub retry_success : String → Cache → Cache
unfolding show add_watched_job invalidate_list
retry_success job_id c = invalidate_list (add_watched_job job_id (show retry_started c))

-- The status of an `AxiosError` with a response.
abbrev pub has_status : ℕ → Option ℕ → Bool
has_status code none = false
has_status code (some status) = status == code

unfoldable pub retry_error : Option ℕ → Cache → Cache
unfolding show
retry_error status c = show (if has_status 409 status then not_retryable else retry_failed) c

-- `useRollbackOnboarding`
unfoldable pub rollback_success : Cache → Cache
unfolding show invalidate_list
rollback_success c = invalidate_list (show rolled_back c)

unfoldable pub rollback_error : Option ℕ → Cache → Cache
unfolding show
rollback_error status c =
    show
      (if has_status 409 status
        then rollback_refused
        else if has_status 404 status
        then user_not_found
        else rollback_failed)
      c

-- `useOffboardUser`
unfoldable pub offboard_success : Cache → Cache
unfolding show invalidate_list
offboard_success c = invalidate_list (show access_revoked c)

unfoldable pub offboard_error : Option ℕ → Cache → Cache
unfolding show
offboard_error status c =
    show
      (if has_status 404 status
        then user_not_found
        else if has_status 409 status
        then offboard_refused
        else offboard_failed)
      c
