-- ===== src/Onboarding/JobStream.antt =====
-- Following a job over its stream: `useOnboardingJobStream` of
-- frontend/src/hooks/useOnboarding.ts, with a reader of its own.
use Prim.Native.String.{String}
use text.Mathlib.Text.{◌==◌ as str_eq}
use it_automation_workspace.Common.{
  ℕ, zero, suc, ◌+◌, Bool, true, false, ◌&&◌, Option, none, some, List, [], ◌∷◌, ◌++◌, Text, codes,
  lf, map, starts_with, index_of, split_on, trim_start, take, drop, length, leb, ltb, ◌==◌,
  if◌then◌else◌,
}
use mathlib.Core.Option
use it_automation_workspace.Json.{Json, null, get, string}
use it_automation_workspace.Sse.{Read, chunk, done, broken, boundary}
use it_automation_workspace.Onboarding.{
  OnboardedUserListItem, workflow_status_of, is_terminal, Cache, remove_watched_job,
  invalidate_list,
}

-- `OnboardingJobStreamEvent`: the status, and the text `data.error`
pub record OnboardingJobStreamEvent : Type 0 where
  pub status : Option Text
  pub error : Option Text

-- `event.data?.error`
abbrev pub error_of : Option Json → Option Text
error_of none = none
error_of (some d) = string (get (codes "error") d)

-- What `applyEvent` reads of a parsed value. On `null` it throws.
abbrev pub event_of : Json → Option OnboardingJobStreamEvent
event_of null = none
event_of v =
    some
      (record { status = string (get (codes "status") v); error = error_of (get (codes "data") v) })

abbrev pub is_job : String → OnboardedUserListItem → Bool
is_job job_id r = elim r.job_id [ none ↦ false | some id ↦ str_eq id job_id ]

abbrev pub with_event : OnboardingJobStreamEvent → OnboardedUserListItem → OnboardedUserListItem
with_event e r = record r {
  workflow_status = workflow_status_of e.status;
  error_message = elim e.error [ none ↦ r.error_message | some message ↦ some message ];
}

unfoldable pub apply_event : String → OnboardingJobStreamEvent → Cache → Cache
unfolding remove_watched_job invalidate_list
apply_event job_id e c =
    let updated = record c {
      list = Option.map (map (λ r. if is_job job_id r then with_event e r else r)) c.list;
    } in
    if is_terminal (workflow_status_of e.status)
    then invalidate_list (remove_watched_job job_id updated)
    else updated

-- `lines.find((line) => line.startsWith("data:"))`
abbrev pub find_data : List Text → Option Text
find_data [] = none
find_data (l ∷ ls) =
    let later = find_data ls in if starts_with (codes "data:") l then some l else later

-- `dataLine.replace(/^data:\s*/, "")`
abbrev pub strip_data : Text → Text
strip_data line = trim_start (drop 5 line)

-- The reader waits for the next chunk, or `connect` has returned.
pub data Follower : Type 0 where
  following : Cache → Text → Follower
  returned : Cache → Follower

-- What `fetch` settles with.
pub data Connection : Type 0 where
  unreachable : Connection
  answered : (status : ℕ) (has_body : Bool) → Connection

module _ (parse_json : Text → Option Json) (job_id : String) where
  -- The event that a raw frame holds; `none` where the frame is skipped.
  unfoldable pub parse_event : Text → Option OnboardingJobStreamEvent
  parse_event raw = elim (find_data (split_on lf raw)) [
    | none ↦ none
    | some line ↦ elim (parse_json (strip_data line)) [ none ↦ none | some v ↦ event_of v ]
  ]

  unfoldable pub drain : ℕ → Cache → Text → Follower
  drain zero c buffer = following c buffer
  drain (suc fuel) c buffer = elim (index_of boundary buffer) [
    | none ↦ following c buffer
    | some at ↦
        let rest = drop (at + 2) buffer in
        elim (parse_event (take at buffer)) [
          | none ↦ drain fuel c rest
          | some e ↦ elim (is_terminal (workflow_status_of e.status)) [
            | true ↦ returned (apply_event job_id e c)
            | false ↦ drain fuel (apply_event job_id e c) rest
          ]
        ]
  ]

  -- The read loop; errors of the network are only logged.
  unfoldable pub follow : Cache → Text → List Read → Follower
  unfolding drain parse_event
  follow c buffer [] = following c buffer
  follow c buffer (done ∷ rs) = returned c
  follow c buffer (broken ∷ rs) = returned c
  follow c buffer (chunk text ∷ rs) =
      let buffer' = buffer ++ text in
      elim (drain (length buffer') c buffer') [
        | following c' rest ↦ follow c' rest rs
        | returned c' ↦ returned c'
      ]

  -- `response.ok`
  abbrev pub is_ok : ℕ → Bool
  is_ok status = leb 200 status && ltb status 300

  unfoldable pub connect : Connection → Cache → List Read → Follower
  unfolding follow remove_watched_job
  connect unreachable c rs = returned c
  connect (answered status has_body) c rs =
      if status == 404
      then returned (remove_watched_job job_id c)
      else if is_ok status && has_body
      then follow c [] rs
      else returned c
