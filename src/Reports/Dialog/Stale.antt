-- ===== src/Reports/Dialog/Stale.antt =====
-- Answers that come after the dialog of GenerateReportModal.tsx has been closed.
use it_automation_workspace.Common.{true, false, Option, none, some, [], ◌∷◌, Text, ◌≡◌, arith}
use it_automation_workspace.Reports.{ReportTriggerInput, trigger, shown}
use it_automation_workspace.Reports.Dialog.{
  Payload, formatted_payload, Dialog, closed, job, view, opening, closing, submitting,
  trigger_answer, download_answer, act, act_all, submit, on_submit, triggered, download_settled,
  handle_close,
}

module _ (to_iso : Text → Option Text) where
  pub download_answer-closed :
      (input : ReportTriggerInput) (p : Payload) (old new : Text) (d : Dialog)
      → formatted_payload to_iso input ≡ some p
      → d.opened ≡ true
      → d.is_triggering ≡ false
      → d.downloading ≡ some old
      → let later =
          act_all to_iso
            (closing ∷ opening ∷ submitting (trigger input) ∷ trigger_answer (some new) ∷ [])
            d in
        (view later ≡ job (shown (d.status_of new)))
        × (view (act to_iso (download_answer true) later) ≡ closed)
        × ((act to_iso (download_answer true) later).active_job_id ≡ none)
  unfolding act_all act submit on_submit view triggered download_settled handle_close
  download_answer-closed input p old new d e o t w = ground arith
