-- ===== src/Scan/Effects.antt =====
-- What an event of the stream does to the hook (frontend/src/hooks/useScanStream.ts).
use it_automation_workspace.Common.{
  Option, some, Text, codes, text_eq, text_eq_iff, ◌≡◌, inl, inr, arith, Option-cases, Bool-cases,
}
use it_automation_workspace.Json.{Json}
use it_automation_workspace.Sse.{SseFrame, Outcome, returned, threw}
use it_automation_workspace.Scan.{
  ScanProgressData, ScanCompleteData, ScanErrorData, scan_progress_data, scan_complete_data,
  scan_error_data, Hook, on_frame, on_progress, on_complete, on_error_event, ◌>>=◌,
}
use it_automation_workspace.Scan.Percent.{Rounding}

module _ (rounding : Rounding) (parse_json : Text → Option Json) where
  -- An event has one of five outcomes. An exception, and an event of another name, change nothing.
  pub data Effect (f : SseFrame) (h : Hook) (o : Outcome Hook) : Type 0 where
    progressed :
        (d : ScanProgressData)
        → f.event ≡ codes "progress"
        → (parse_json f.content >>= scan_progress_data) ≡ some d
        → o ≡ returned (on_progress rounding parse_json d h)
        → Effect f h o
    completed :
        (d : ScanCompleteData)
        → f.event ≡ codes "complete"
        → (parse_json f.content >>= scan_complete_data) ≡ some d
        → o ≡ returned (on_complete rounding parse_json d h)
        → Effect f h o
    failed :
        (d : ScanErrorData)
        → f.event ≡ codes "error"
        → (parse_json f.content >>= scan_error_data) ≡ some d
        → o ≡ returned (on_error_event rounding parse_json d h)
        → Effect f h o
    thrown : o ≡ threw h → Effect f h o
    ignored : o ≡ returned h → Effect f h o

  pub on_frame-Effect : (f : SseFrame) (h : Hook) → Effect f h (on_frame rounding parse_json f h)
  unfolding on_frame
  on_frame-Effect f h = elim (Bool-cases (text_eq f.event (codes "progress"))) [
    | inl p ↦ elim (Option-cases (parse_json f.content >>= scan_progress_data)) [
      | inl e ↦ thrown (ground arith)
      | inr (d, e) ↦ progressed d ((text_eq_iff _ _).0 p) e (ground arith)
    ]
    | inr p ↦ elim (Bool-cases (text_eq f.event (codes "complete"))) [
      | inl c ↦ elim (Option-cases (parse_json f.content >>= scan_complete_data)) [
        | inl e ↦ thrown (ground arith)
        | inr (d, e) ↦ completed d ((text_eq_iff _ _).0 c) e (ground arith)
      ]
      | inr c ↦ elim (Bool-cases (text_eq f.event (codes "error"))) [
        | inl r ↦ elim (Option-cases (parse_json f.content >>= scan_error_data)) [
          | inl e ↦ thrown (ground arith)
          | inr (d, e) ↦ failed d ((text_eq_iff _ _).0 r) e (ground arith)
        ]
        | inr r ↦ ignored (ground arith)
      ]
    ]
  ]
