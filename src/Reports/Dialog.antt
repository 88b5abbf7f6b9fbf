-- ===== src/Reports/Dialog.antt =====
-- The dialog that asks for a report, frontend/src/components/reports/GenerateReportModal.tsx, with
-- the mutations and the query of frontend/src/hooks/useReports.ts that it calls.
pub mod Runs
pub mod Final
pub mod Stale
use it_automation_workspace.Common.{
  ℕ, suc, Bool, true, false, ◌&&◌, ◌||◌, not, Option, none, some, List, [], ◌∷◌, ◌++◌, Text, codes,
  text_eq, if◌then◌else◌,
}
use it_automation_workspace.Reports.{
  ReportType, ReportTriggerInput, Triggered, type_missing, start_after_end, trigger, is_some,
  refetch_interval, Shown, shown,
}

-- What `mutationFn` posts to `/reports/trigger`.
pub record Payload : Type 0 where
  pub report_type : ReportType
  pub start_date : Option Text
  pub end_date : Option Text

-- `date ? new Date(date).toISOString() : undefined`; `toISOString` throws (`none`) on an invalid date.
abbrev pub iso_date : (Text → Option Text) → Option Text → Option (Option Text)
iso_date to_iso none = some none
iso_date to_iso (some []) = some none
iso_date to_iso (some (c ∷ cs)) = elim (to_iso (c ∷ cs)) [ none ↦ none | some t ↦ some (some t) ]

-- `formattedPayload`
unfoldable pub formatted_payload : (Text → Option Text) → ReportTriggerInput → Option Payload
formatted_payload to_iso r = elim (iso_date to_iso r.start_date) [
  | none ↦ none
  | some a ↦ elim (iso_date to_iso r.end_date) [
    | none ↦ none
    | some b ↦ some (record { report_type = r.report_type; start_date = a; end_date = b })
  ]
]

pub data Request : Type 0 where
  post_trigger : Payload → Request
  get_status get_download : (job_id : Text) → Request

pub data Toast : Type 0 where
  generation_started downloaded : Toast
  generation_failed download_failed : Toast

-- The name of the file that `useDownloadReport` saves.
abbrev pub file_name : Text → Text
file_name job_id = codes "report_" ++ (job_id ++ codes ".pdf")

-- The parent's `open`, the state, the query's data by job, the job whose status is on its way, the
-- pending mutations, and, latest first, the requests, the toasts, the files saved, and how often the
-- history was invalidated.
pub record Dialog : Type 0 where
  pub opened : Bool
  pub active_job_id : Option Text
  pub status_of : Text → Option Text
  pub asking : Option Text
  pub is_triggering : Bool
  pub downloading : Option Text
  pub requests : List Request
  pub toasts : List Toast
  pub files : List Text
  pub invalidations : ℕ

-- `jobStatus?.status`
abbrev pub job_status : Dialog → Option Text
job_status d = elim d.active_job_id [ none ↦ none | some job_id ↦ d.status_of job_id ]

-- What the dialog shows: the form, or how a job stands.
pub data View : Type 0 where
  closed form : View
  job : Shown → View

unfoldable pub view : Dialog → View
unfolding shown
view d =
    if d.opened
    then elim d.active_job_id [ none ↦ form | some job_id ↦ job (shown (d.status_of job_id)) ]
    else closed

abbrev pub shows_form : View → Bool
shows_form form = true
shows_form _ = false

abbrev pub shows_complete : View → Bool
shows_complete (job s) = s.is_complete
shows_complete _ = false

abbrev pub shows_failed : View → Bool
shows_failed (job s) = s.is_failed
shows_failed _ = false

-- `handleClose`
unfoldable pub handle_close : Dialog → Dialog
handle_close d = record d { opened = false; active_job_id = none }

-- `onSubmit` with the values that the schema passed on. Where the dates cannot be formatted, the
-- mutation fails before it posts anything.
unfoldable pub on_submit : (Text → Option Text) → ReportTriggerInput → Dialog → Dialog
unfolding formatted_payload
on_submit to_iso input d = elim (formatted_payload to_iso input) [
  | none ↦ record d { toasts = generation_failed ∷ d.toasts }
  | some p ↦ record d { is_triggering = true; requests = post_trigger p ∷ d.requests }
]

-- The button "Bericht Erstellen": `handleSubmit`, where the form is shown and none is pending.
unfoldable pub submit : (Text → Option Text) → Triggered → Dialog → Dialog
unfolding on_submit view
submit to_iso type_missing d = d
submit to_iso start_after_end d = d
submit to_iso (trigger input) d =
    if shows_form (view d) && not d.is_triggering then on_submit to_iso input d else d

-- The answer to the post; `none` is an error.
unfoldable pub triggered : Option Text → Dialog → Dialog
triggered none d = record d { is_triggering = false; toasts = generation_failed ∷ d.toasts }
triggered (some job_id) d = record d {
  is_triggering = false;
  toasts = generation_started ∷ d.toasts;
  invalidations = suc d.invalidations;
  active_job_id = some job_id;
}

-- `useReportJobStatus`: the query asks for the active job if it has no status of it, or when
-- `refetchInterval` has passed; one request at a time.
abbrev pub asks : Option Text → Bool
asks status = not (is_some status) || is_some (refetch_interval status)

unfoldable pub ask : Dialog → Dialog
unfolding refetch_interval
ask d = elim d.active_job_id [
  | none ↦ d
  | some job_id ↦
      if asks (d.status_of job_id) && not (is_some d.asking)
      then record d { asking = some job_id; requests = get_status job_id ∷ d.requests }
      else d
]

-- `refetchOnWindowFocus` of the query client; it does the same when the network is back, and when the
-- query is observed anew. A status that is older than `staleTime` is asked for again, also a final
-- one.
unfoldable pub refocus : (is_stale : Bool) → Dialog → Dialog
refocus is_stale d = elim d.active_job_id [
  | none ↦ d
  | some job_id ↦
      if is_stale && not (is_some d.asking)
      then record d { asking = some job_id; requests = get_status job_id ∷ d.requests }
      else d
]

abbrev pub update : Text → Text → (Text → Option Text) → Text → Option Text
update job_id status f j = if text_eq j job_id then some status else f j

-- The status that comes back for the job asked for.
unfoldable pub answered : (status : Text) → Dialog → Dialog
answered status d = elim d.asking [
  | none ↦ d
  | some job_id ↦ record d { asking = none; status_of = update job_id status d.status_of }
]

-- `handleDownload`, by the button that is shown for a completed job and disabled while one is pending.
unfoldable pub handle_download : Dialog → Dialog
unfolding view
handle_download d = elim d.active_job_id [
  | none ↦ d
  | some job_id ↦
      if shows_complete (view d) && not (is_some d.downloading)
      then record d { downloading = some job_id; requests = get_download job_id ∷ d.requests }
      else d
]

-- The answer to the download: the file is saved, and the call's `onSuccess` closes the dialog.
unfoldable pub download_settled : (succeeds : Bool) → Dialog → Dialog
unfolding handle_close
download_settled succeeds d = elim d.downloading [
  | none ↦ d
  | some job_id ↦
      if succeeds
      then handle_close (record d {
        downloading = none;
        toasts = downloaded ∷ d.toasts;
        files = file_name job_id ∷ d.files;
      })
      else record d { downloading = none; toasts = download_failed ∷ d.toasts }
]

-- "Erneut versuchen", shown for a failed job.
unfoldable pub retry : Dialog → Dialog
unfolding view
retry d = if shows_failed (view d) then record d { active_job_id = none } else d

-- What happens to the dialog. The requests for a status that end with an error are not among it.
pub data Action : Type 0 where
  opening closing asking_status retrying downloading : Action
  submitting : Triggered → Action
  refocusing : (is_stale : Bool) → Action
  trigger_answer : Option Text → Action
  status_answer : Text → Action
  download_answer : Bool → Action

module _ (to_iso : Text → Option Text) where
  unfoldable pub act : Action → Dialog → Dialog
  unfolding handle_close submit triggered ask refocus answered handle_download download_settled
      retry
  act opening d = record d { opened = true }
  act closing d = if d.opened then handle_close d else d
  act asking_status d = ask d
  act (refocusing is_stale) d = refocus is_stale d
  act retrying d = retry d
  act downloading d = handle_download d
  act (submitting t) d = submit to_iso t d
  act (trigger_answer a) d = if d.is_triggering then triggered a d else d
  act (status_answer s) d = answered s d
  act (download_answer b) d = download_settled b d

  unfoldable pub act_all : List Action → Dialog → Dialog
  unfolding act
  act_all [] d = d
  act_all (a ∷ rest) d = act_all rest (act a d)

-- The dialog of a page that has just been opened.
abbrev pub new_dialog : Dialog
new_dialog = record {
  opened = false;
  active_job_id = none;
  status_of = λ j. none;
  asking = none;
  is_triggering = false;
  downloading = none;
  requests = [];
  toasts = [];
  files = [];
  invalidations = 0;
}
