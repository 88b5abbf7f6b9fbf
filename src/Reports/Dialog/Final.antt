-- ===== src/Reports/Dialog/Final.antt =====
-- The polling of a job (`useReportJobStatus`, frontend/src/hooks/useReports.ts) under whatever else
-- happens to the dialog.
use it_automation_workspace.Common.{
  ℕ, ◌+◌, ◌≤◌, Bool, true, false, Option, none, some, List, [], ◌∷◌, Text, text_eq, text_eq_iff,
  if◌then◌else◌, ◌≡◌, subst, arith, Bool-cases, Option-cases, inl, inr,
}
use it_automation_workspace.Reports.{Triggered, type_missing, start_after_end, trigger}
use it_automation_workspace.Reports.Dialog.{
  Request, post_trigger, get_status, get_download, Dialog, Action, opening, closing, asking_status,
  retrying, downloading, submitting, trigger_answer, status_answer, download_answer, act, act_all,
  refocusing, refocus, asks, ask, answered, submit, on_submit, triggered, retry, handle_download,
  download_settled, handle_close,
}

abbrev pub is_job : Text → Option Text → Bool
is_job job_id none = false
is_job job_id (some j) = text_eq job_id j

-- How often the status of a job has been asked for.
abbrev pub asked : Text → List Request → ℕ
asked job_id [] = 0
asked job_id (get_status j ∷ rs) = (if text_eq job_id j then 1 else 0) + asked job_id rs
asked job_id (post_trigger p ∷ rs) = asked job_id rs
asked job_id (get_download j ∷ rs) = asked job_id rs

-- How often a stale status may be asked for again.
abbrev pub stale_focus : Action → ℕ
stale_focus (refocusing true) = 1
stale_focus _ = 0

abbrev pub stale_focuses : List Action → ℕ
stale_focuses [] = 0
stale_focuses (a ∷ rest) = stale_focus a + stale_focuses rest

module _ (job_id status : Text) where
  -- Every answer that comes for the job has this status.
  abbrev pub AnswersWith : Action → Dialog → Type 0
  AnswersWith (status_answer s) d = is_job job_id d.asking ≡ true → s ≡ status
  AnswersWith _ d = Unit

  abbrev pub AllAnswerWith : (to_iso : Text → Option Text) → List Action → Dialog → Type 0
  AllAnswerWith to_iso [] d = Unit
  AllAnswerWith to_iso (a ∷ rest) d = AnswersWith a d × AllAnswerWith to_iso rest (act to_iso a d)

  -- The status is known, and `n` requests for it have been sent at most.
  pub record Knows (n : ℕ) (d : Dialog) : Type 0 where
    pub known : d.status_of job_id ≡ some status
    pub count : asked job_id d.requests ≤ n

  weaken : (n m : ℕ) (d : Dialog) → Knows n d → n ≤ m → Knows m d
  weaken n m d k le = ground arith

  not_job :
      (j : Text) (status_of : Text → Option Text)
      → asks (some status) ≡ false
      → status_of job_id ≡ some status
      → text_eq job_id j ≡ true
      → asks (status_of j) ≡ false
  not_job j status_of ended known same =
      subst (λ i. asks (status_of i) ≡ false) ((text_eq_iff job_id j).0 same) (rw known ended)

  ask-Knows : (n : ℕ) (d : Dialog) → asks (some status) ≡ false → Knows n d → Knows n (ask d)
  unfolding ask
  ask-Knows n d ended k = elim (Option-cases d.active_job_id) [
    | inl e ↦ ground arith
    | inr (j, e) ↦ elim (Bool-cases (text_eq job_id j)) [
      | inl same ↦ ground (arith, not_job j d.status_of ended k.known same)
      | inr other ↦ ground arith
    ]
  ]

  refocus-Knows : (n : ℕ) (d : Dialog) → Knows n d → Knows (1 + n) (refocus true d)
  unfolding refocus
  refocus-Knows n d k = elim (Option-cases d.active_job_id) [
    | inl e ↦ ground arith
    | inr (j, e) ↦ ground arith
  ]

  fresh-Knows : (n : ℕ) (d : Dialog) → Knows n d → Knows n (refocus false d)
  unfolding refocus
  fresh-Knows n d k = ground arith

  answered-Knows :
      (n : ℕ) (s : Text) (d : Dialog)
      → (is_job job_id d.asking ≡ true → s ≡ status)
      → Knows n d
      → Knows n (answered s d)
  unfolding answered
  answered-Knows n s d h k = elim (Option-cases d.asking) [
    | inl e ↦ ground arith
    | inr (j, e) ↦ elim (Bool-cases (text_eq job_id j)) [
      | inl same ↦ let kept : s ≡ status = h (rw e same) in ground arith
      | inr other ↦ ground arith
    ]
  ]

  handle_download-Knows : (n : ℕ) (d : Dialog) → Knows n d → Knows n (handle_download d)
  unfolding handle_download
  handle_download-Knows n d k = ground arith

  submit-Knows :
      (to_iso : Text → Option Text) (t : Triggered) (n : ℕ) (d : Dialog)
      → Knows n d
      → Knows n (submit to_iso t d)
  unfolding submit on_submit
  submit-Knows to_iso type_missing n d k = k
  submit-Knows to_iso start_after_end n d k = k
  submit-Knows to_iso (trigger input) n d k = ground arith

  module _ (to_iso : Text → Option Text) (ended : asks (some status) ≡ false) where
    act-Knows :
        (a : Action) (n : ℕ) (d : Dialog)
        → AnswersWith a d
        → Knows n d
        → Knows (stale_focus a + n) (act to_iso a d)
    unfolding act handle_close retry triggered download_settled
    act-Knows opening n d h k = ground arith
    act-Knows closing n d h k = ground arith
    act-Knows asking_status n d h k = ground (arith, ask-Knows n d ended k)
    act-Knows (refocusing true) n d h k = ground (arith, refocus-Knows n d k)
    act-Knows (refocusing false) n d h k = ground (arith, fresh-Knows n d k)
    act-Knows retrying n d h k = ground arith
    act-Knows downloading n d h k = ground (arith, handle_download-Knows n d k)
    act-Knows (submitting t) n d h k = ground (arith, submit-Knows to_iso t n d k)
    act-Knows (trigger_answer none) n d h k = ground arith
    act-Knows (trigger_answer (some j)) n d h k = ground arith
    act-Knows (status_answer s) n d h k = ground (arith, answered-Knows n s d h k)
    act-Knows (download_answer b) n d h k = ground arith

    -- Once a final status of a job is known, and as long as the server answers with this status
    -- alone, the status stays whatever of the actions happen to the dialog, and the polling has ended:
    -- the job is asked for again at most once for each time that the query client refreshes a stale
    -- status. It does so when the window is focused, the network is back or the query is observed
    -- anew; requests that end with an error are not among the actions.
    pub act_all-Knows :
        (actions : List Action) (n : ℕ) (d : Dialog)
        → AllAnswerWith to_iso actions d
        → Knows n d
        → Knows (stale_focuses actions + n) (act_all to_iso actions d)
    unfolding act_all
    act_all-Knows [] n d h k = weaken n (stale_focuses [] + n) d k (omega arith)
    act_all-Knows (a ∷ rest) n d h k =
        weaken (stale_focuses rest + (stale_focus a + n)) (stale_focuses (a ∷ rest) + n)
          (act_all to_iso rest (act to_iso a d))
          (act_all-Knows rest (stale_focus a + n) (act to_iso a d) h.1 (act-Knows a n d h.0 k))
          (omega arith)
