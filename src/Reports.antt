-- ===== src/Reports.antt =====
-- Reports: the form's schema (frontend/src/types/report.ts), the polling of a job
-- (frontend/src/hooks/useReports.ts), and how the dialog shows a job
-- (frontend/src/components/reports/GenerateReportModal.tsx).
pub mod History
pub mod Dialog
use it_automation_workspace.Common.{
  ℕ, suc, ◌+◌, ◌≤◌, leb, Bool, true, false, ◌&&◌, ◌||◌, not, Option, none, some, List, [], ◌∷◌,
  ◌++◌, Text, codes, text_eq, map, length, All, any, if◌then◌else◌, ◌≡◌, ◌↔◌, ◌⊎◌, refl, sym, ap,
  arith, inl, inr, Bool-cases, Option-cases,
}
use it_automation_workspace.Scan.Toolbar.{lower}

pub data ReportType : Type 0 where
  overview asset_inventory device_health onboarding_summary compliance_audit : ReportType

-- `z.enum`
abbrev pub report_type_of : Text → Option ReportType
report_type_of s =
    if text_eq s (codes "overview")
    then some overview
    else if text_eq s (codes "asset_inventory")
    then some asset_inventory
    else if text_eq s (codes "device_health")
    then some device_health
    else if text_eq s (codes "onboarding_summary")
    then some onboarding_summary
    else if text_eq s (codes "compliance_audit")
    then some compliance_audit
    else none

pub record ReportTriggerInput : Type 0 where
  pub report_type : ReportType
  pub start_date : Option Text
  pub end_date : Option Text

-- How the schema answers, by its two messages.
pub data Triggered : Type 0 where
  type_missing start_after_end : Triggered
  trigger : ReportTriggerInput → Triggered

-- `date_a <= date_b`, over the times of the dates; `none` is NaN, and makes it false.
abbrev pub time_leb : Option ℕ → Option ℕ → Bool
time_leb none b = false
time_leb (some a) none = false
time_leb (some a) (some b) = leb a b

-- The test of `refine`. A date that is missing or empty is not compared.
abbrev pub in_order : (Text → Option ℕ) → Option Text → Option Text → Bool
in_order get_time none b = true
in_order get_time (some []) b = true
in_order get_time (some (c ∷ cs)) none = true
in_order get_time (some (c ∷ cs)) (some []) = true
in_order get_time (some (c ∷ cs)) (some (d ∷ ds)) = time_leb (get_time (c ∷ cs)) (get_time (d ∷ ds))

-- `reportTriggerSchema.safeParse`
unfoldable pub report_trigger :
    (Text → Option ℕ) → (report_type : Text) → (start_date end_date : Option Text) → Triggered
report_trigger get_time type start_date end_date = elim (report_type_of type) [
  | none ↦ type_missing
  | some t ↦
      if in_order get_time start_date end_date
      then trigger (record { report_type = t; start_date = start_date; end_date = end_date })
      else start_after_end
]

pub data JobStatus : Type 0 where
  queued running completed failed : JobStatus

abbrev pub status_text : JobStatus → Text
status_text queued = codes "queued"
status_text running = codes "running"
status_text completed = codes "completed"
status_text failed = codes "failed"

-- `refetchInterval`, with `none` for `false`
unfoldable pub refetch_interval : Option Text → Option ℕ
refetch_interval none = none
refetch_interval (some status) =
    if text_eq status (codes "queued") || text_eq status (codes "running") then some 1500 else none

abbrev pub is_some {ℓ} : {A : Type ℓ} → Option A → Bool
is_some none = false
is_some (some a) = true

-- The statuses that the query gets, one request after another.
unfoldable pub poll_all : List JobStatus → List JobStatus
unfolding refetch_interval
poll_all [] = []
poll_all (s ∷ answers) =
    let rest = poll_all answers in
    if is_some (refetch_interval (some (status_text s))) then s ∷ rest else s ∷ []

-- How the dialog shows a job.
pub record Shown : Type 0 where
  pub is_queued : Bool
  pub is_complete : Bool
  pub is_failed : Bool

abbrev pub one_of : Text → List Text → Bool
one_of s = any (λ t. text_eq s t)

unfoldable pub shown : Option Text → Shown
shown status =
    let normalized = map lower (elim status [ none ↦ codes "queued" | some s ↦ s ]) in
    record {
      is_queued =
          one_of normalized (codes "queued" ∷ codes "running" ∷ codes "pending" ∷ [])
          || not (is_some status);
      is_complete =
          one_of normalized
            (codes "completed" ∷ codes "success" ∷ codes "done" ∷ codes "ready" ∷ []);
      is_failed = one_of normalized (codes "failed" ∷ codes "error" ∷ []);
    }

abbrev pub is_pending : JobStatus → Bool
is_pending queued = true
is_pending running = true
is_pending _ = false

-- The query asks until the job has ended: it gets the statuses of a job on its way and the first one
-- that is final, and none of the later answers.
pub poll_all-append :
    (waiting : List JobStatus) (last : JobStatus) (later : List JobStatus)
    → All (λ s. is_pending s ≡ true) waiting
    → is_pending last ≡ false
    → poll_all (waiting ++ last ∷ later) ≡ waiting ++ last ∷ []
unfolding poll_all
poll_all-append [] queued later h e = cc
poll_all-append [] running later h e = cc
poll_all-append [] completed later h e = refl
poll_all-append [] failed later h e = refl
poll_all-append (queued ∷ ss) last later h e =
    ap (λ r. queued ∷ r) (poll_all-append ss last later h.1 e)
poll_all-append (running ∷ ss) last later h e =
    ap (λ r. running ∷ r) (poll_all-append ss last later h.1 e)
poll_all-append (completed ∷ ss) last later h e = cc
poll_all-append (failed ∷ ss) last later h e = cc

-- The dialog shows each status of a job in exactly one way, and as queued exactly while the query
-- goes on asking; before the first answer it shows the job as queued.
pub shown-refetch_interval :
    (s : JobStatus)
    → let d = shown (some (status_text s)) in
      (d.is_queued ≡ is_some (refetch_interval (some (status_text s))))
      × (d.is_complete ≡ text_eq (status_text s) (status_text completed))
      × (d.is_failed ≡ text_eq (status_text s) (status_text failed))
      × ((shown none).is_queued ≡ true)
unfolding shown refetch_interval
shown-refetch_interval queued = (refl, refl, refl, refl)
shown-refetch_interval running = (refl, refl, refl, refl)
shown-refetch_interval completed = (refl, refl, refl, refl)
shown-refetch_interval failed = (refl, refl, refl, refl)

checked_lem :
    (o : Option ReportType) (ok : Bool) (a b : Option Text) (input : ReportTriggerInput)
    → ((elim o [
      | none ↦ type_missing
      | some t ↦
          if ok
          then trigger (record { report_type = t; start_date = a; end_date = b })
          else start_after_end
    ])
        ≡ trigger input)
      ↔ ((o ≡ some input.report_type) × (input.start_date ≡ a) × (input.end_date ≡ b) × (ok ≡ true))
checked_lem none ok a b input = ground arith
checked_lem (some t) true a b input = ground arith
checked_lem (some t) false a b input = ground arith

-- The schema passes on a form exactly if its type is one of the five and the dates, where both are
-- set, are dates of which the first is not after the second.
pub report_trigger_lem :
    (get_time : Text → Option ℕ) (type : Text) (a b : Option Text) (input : ReportTriggerInput)
    → (report_trigger get_time type a b ≡ trigger input) ↔ (
        (report_type_of type ≡ some input.report_type)
        × (input.start_date ≡ a)
        × (input.end_date ≡ b)
        × (in_order get_time a b ≡ true))
unfolding report_trigger
report_trigger_lem get_time type a b input =
    checked_lem (report_type_of type) (in_order get_time a b) a b input
