-- ===== src/Reports/Dialog/Runs.antt =====
-- From the form to the file: what frontend/src/components/reports/GenerateReportModal.tsx and
-- frontend/src/hooks/useReports.ts do for one report.
use it_automation_workspace.Common.{
  ℕ, zero, suc, ◌+◌, true, false, Option, none, some, List, [], ◌∷◌, ◌++◌, Text, length, All,
  text_eq, text_eq_iff, ◌≡◌, refl, arith,
}
use it_automation_workspace.Reports.{
  JobStatus, queued, running, completed, failed, status_text, is_pending, ReportTriggerInput,
  trigger, refetch_interval, shown,
}
use it_automation_workspace.Reports.Dialog.{
  Payload, formatted_payload, Request, post_trigger, get_status, get_download, generation_started,
  downloaded, file_name, Dialog, closed, view, Action, opening, asking_status, downloading,
  submitting, trigger_answer, status_answer, download_answer, act, act_all, asks, ask, answered,
  submit, on_submit, triggered, handle_download, download_settled, handle_close, new_dialog,
}

-- The query asks, and gets these statuses.
abbrev pub polls : List JobStatus → List Action → List Action
polls [] later = later
polls (s ∷ ss) later = asking_status ∷ status_answer (status_text s) ∷ polls ss later

abbrev pub status_requests : Text → ℕ → List Request → List Request
status_requests job_id zero before = before
status_requests job_id (suc n) before = get_status job_id ∷ status_requests job_id n before

-- The dialog follows a job, whose status it last knew, and has asked for it `n` times.
pub record Follows (job_id : Text) (p : Payload) (n : ℕ) (status : Option Text) (d : Dialog)
    : Type 0 where
  pub opened : d.opened ≡ true
  pub active : d.active_job_id ≡ some job_id
  pub known : d.status_of job_id ≡ status
  pub idle : d.asking ≡ none
  pub no_download : d.downloading ≡ none
  pub requests : d.requests ≡ status_requests job_id n (post_trigger p ∷ [])
  pub toasts : d.toasts ≡ generation_started ∷ []
  pub files : d.files ≡ []
  pub invalidations : d.invalidations ≡ 1

ask_lem :
    (job_id : Text) (d : Dialog)
    → d.active_job_id ≡ some job_id
    → asks (d.status_of job_id) ≡ true
    → d.asking ≡ none
    → ask d ≡ record d { asking = some job_id; requests = get_status job_id ∷ d.requests }
unfolding ask refetch_interval
ask_lem job_id d a e n = ground arith

ask_ended :
    (job_id : Text) (d : Dialog)
    → d.active_job_id ≡ some job_id
    → asks (d.status_of job_id) ≡ false
    → ask d ≡ d
unfolding ask refetch_interval
ask_ended job_id d a e = ground arith

asks_completed : asks (some (status_text completed)) ≡ false
unfolding refetch_interval
asks_completed = refl

shown_completed : (shown (some (status_text completed))).is_complete ≡ true
unfolding shown
shown_completed = refl

module _ (to_iso : Text → Option Text) (job_id : Text) (p : Payload) where
  poll-Follows :
      (status : Option Text) (t : Text) (n : ℕ) (d : Dialog)
      → asks status ≡ true
      → Follows job_id p n status d
      → Follows job_id p
          (suc n)
          (some t)
          (act to_iso (status_answer t) (act to_iso asking_status d))
  unfolding act answered
  poll-Follows status t n d e f =
      let same : text_eq job_id job_id ≡ true = (text_eq_iff job_id job_id).1 refl in
      rw (ask_lem job_id d f.active (rw f.known e) f.idle) (record {
        opened = f.opened;
        active = f.active;
        known = rw same refl;
        idle = refl;
        no_download = f.no_download;
        requests = rw f.requests refl;
        toasts = f.toasts;
        files = f.files;
        invalidations = f.invalidations;
      })

  asks_of_pending : (s : JobStatus) → is_pending s ≡ true → asks (some (status_text s)) ≡ true
  unfolding refetch_interval
  asks_of_pending queued e = refl
  asks_of_pending running e = refl
  asks_of_pending completed e = cc
  asks_of_pending failed e = cc

  on_submit_lem :
      (input : ReportTriggerInput) (d : Dialog)
      → formatted_payload to_iso input ≡ some p
      → on_submit to_iso input d
        ≡ record d { is_triggering = true; requests = post_trigger p ∷ d.requests }
  unfolding on_submit
  on_submit_lem input d e = ground arith

  start-Follows :
      (input : ReportTriggerInput)
      → formatted_payload to_iso input ≡ some p
      → Follows job_id p 0 none (
          act to_iso
            (trigger_answer (some job_id))
            (act to_iso (submitting (trigger input)) (act to_iso opening new_dialog)))
  unfolding act submit view triggered
  start-Follows input e = rw (on_submit_lem input (record new_dialog { opened = true }) e) (record {
    opened = refl;
    active = refl;
    known = refl;
    idle = refl;
    no_download = refl;
    requests = refl;
    toasts = refl;
    files = refl;
    invalidations = refl;
  })

  handle_download_lem :
      (d : Dialog)
      → d.opened ≡ true
      → d.active_job_id ≡ some job_id
      → (shown (d.status_of job_id)).is_complete ≡ true
      → d.downloading ≡ none
      → handle_download d
        ≡ record d { downloading = some job_id; requests = get_download job_id ∷ d.requests }
  unfolding handle_download
  handle_download_lem d o a c n = ground arith

  -- The dialog's last steps with a job whose last status is known.
  abbrev pub last_steps : List Action
  last_steps = asking_status ∷ downloading ∷ download_answer true ∷ []

  -- The dialog is closed and has saved the file, after `n` requests for the status.
  pub record IsDone (n : ℕ) (d : Dialog) : Type 0 where
    pub is_closed : view d ≡ closed
    pub no_job : d.active_job_id ≡ none
    pub file : d.files ≡ file_name job_id ∷ []
    pub asked : d.requests ≡ get_download job_id ∷ status_requests job_id n (post_trigger p ∷ [])
    pub told : d.toasts ≡ downloaded ∷ generation_started ∷ []
    pub refreshed : d.invalidations ≡ 1

  no_more_lem :
      (n : ℕ) (d : Dialog) → Follows job_id p n (some (status_text completed)) d → ask d ≡ d
  no_more_lem n d f = ask_ended job_id d f.active (ended_of d.status_of f.known)
    where
      ended_of :
          (status_of : Text → Option Text)
          → status_of job_id ≡ some (status_text completed)
          → asks (status_of job_id) ≡ false
      ended_of status_of e = rw e asks_completed

  last_steps-IsDone :
      (n : ℕ) (d : Dialog)
      → Follows job_id p n (some (status_text completed)) d
      → IsDone n (act_all to_iso last_steps d)
  unfolding act_all act download_settled handle_close view
  last_steps-IsDone n d f =
      let complete : (shown (d.status_of job_id)).is_complete ≡ true = rw f.known shown_completed in
      rw (no_more_lem n d f, handle_download_lem d f.opened f.active complete f.no_download)
        (record {
          is_closed = refl;
          no_job = refl;
          file = rw f.files refl;
          asked = rw f.requests refl;
          told = rw f.toasts refl;
          refreshed = f.invalidations;
        })

  polls-IsDone :
      (status : Option Text) (waiting : List JobStatus) (n k : ℕ) (d : Dialog)
      → k ≡ n + suc (length waiting)
      → asks status ≡ true
      → All (λ s. is_pending s ≡ true) waiting
      → Follows job_id p n status d
      → IsDone k (act_all to_iso (polls (waiting ++ completed ∷ []) last_steps) d)
  unfolding act_all
  polls-IsDone status [] n k d i e h f =
      let i' : k ≡ suc n = omega arith in
      rw i' (last_steps-IsDone (suc n) _ (poll-Follows status (status_text completed) n d e f))
  polls-IsDone status (s ∷ ss) n k d i e h f =
      polls-IsDone (some (status_text s)) ss (suc n) k _ (omega arith) (asks_of_pending s h.0) h.1
        (poll-Follows status (status_text s) n d e f)

  -- If a form that passes is posted, and the server answers with a job, any number of statuses that
  -- are not final, and then "completed", then the download ends with the dialog closed, the file
  -- saved once, and one request sent for each of these: the query does not ask again after the final
  -- status.
  pub act_all-IsDone :
      (input : ReportTriggerInput) (waiting : List JobStatus)
      → formatted_payload to_iso input ≡ some p
      → All (λ s. is_pending s ≡ true) waiting
      → IsDone (suc (length waiting)) (
          act_all to_iso
            (opening
              ∷ submitting (trigger input)
              ∷ trigger_answer (some job_id)
              ∷ polls (waiting ++ completed ∷ []) last_steps)
            new_dialog)
  unfolding act_all
  act_all-IsDone input waiting e h =
      polls-IsDone none waiting 0 (suc (length waiting)) _ (omega arith) refl h
        (start-Follows input e)
