-- ===== src/Tests/Dialogs.antt =====
-- The dialogs: a report, a new employee, and a scan.
use Prim.Native.String.{String}
use it_automation_workspace.Common.{
  ◌+◌, List, arith, suc, Bool, true, false, Option, none, some, [], ◌∷◌, ◌++◌, Text, codes, length,
  or_else, ◌≡◌, refl,
}
use it_automation_workspace.Reports.{
  overview, ReportTriggerInput, queued, running, completed, trigger, refetch_interval,
}
use it_automation_workspace.Reports.Dialog.{
  Payload, Dialog, new_dialog, formatted_payload, opening, asking_status, submitting,
  trigger_answer, status_answer, download_answer, refocusing, Action, act_all, act, ask, refocus,
  answered, download_settled, handle_close,
}
use it_automation_workspace.Reports.Dialog.Runs.{polls, last_steps, IsDone, act_all-IsDone}
use it_automation_workspace.Reports.Dialog.Final.{Knows, asked, stale_focuses, act_all-Knows}
use it_automation_workspace.Onboarding.{OnboardRequest, optimistic_record}
use it_automation_workspace.Onboarding.Form as Form
use it_automation_workspace.Onboarding.Form.{settle-submit}

-- A day's first moment.
abbrev to_iso : Text → Option Text
to_iso day = some (day ++ codes "T00:00:00.000Z")

abbrev input : ReportTriggerInput
input = record { report_type = overview; start_date = none; end_date = some (codes "2026-01-31") }

abbrev payload : Payload
payload = record {
  report_type = overview;
  start_date = none;
  end_date = some (codes "2026-01-31T00:00:00.000Z");
}

act_all-IsDone_example : IsDone to_iso (codes "7") payload (suc (length (queued ∷ running ∷ []))) (
    act_all to_iso
      (opening
        ∷ submitting (trigger input)
        ∷ trigger_answer (some (codes "7"))
        ∷ polls (queued ∷ running ∷ [] ++ completed ∷ []) (last_steps to_iso (codes "7") payload))
      new_dialog)
unfolding formatted_payload
act_all-IsDone_example =
    act_all-IsDone to_iso (codes "7") payload input (queued ∷ running ∷ []) refl (refl, (refl, tt))

-- The job 7 is ready, and its file is on its way.
abbrev ready : Dialog
ready = record new_dialog {
  opened = true;
  active_job_id = some (codes "7");
  status_of = λ j. some (codes "completed");
  downloading = some (codes "7");
}

-- The dialog is left for a minute, and the window is focused again.
abbrev later : List Action
later =
    asking_status
    ∷ refocusing true
    ∷ status_answer (codes "completed")
    ∷ asking_status
    ∷ refocusing false
    ∷ download_answer true
    ∷ []

act_all-Knows_example :
    Knows (codes "7") (codes "completed") (stale_focuses later + 0) (act_all to_iso later ready)
unfolding refetch_interval act ask refocus answered download_settled
act_all-Knows_example =
    act_all-Knows (codes "7") (codes "completed") to_iso refl later 0 ready
      (tt, (tt, ((λ e. refl), (tt, (tt, (tt, tt))))))
      (record { known = refl; count = ground arith })

-- The status is asked for once more, when the window is focused.
later_count : asked (codes "7") (act_all to_iso later ready).requests ≡ 1
unfolding act_all act ask refocus answered download_settled handle_close refetch_interval
later_count = refl

abbrev is_email : String → Bool
is_email s = true

abbrev ada : OnboardRequest
ada = record {
  first_name = "Ada";
  last_name = "L";
  email = "ada@b.de";
  department = "IT";
  job_title = "Engineer";
}

abbrev filled : Form.FormDialog
filled = record {
  opened = true;
  values = ada;
  issues = [];
  pending = none;
  cache = record { list = none; watched = []; invalidated = 0; toasts = [] };
  posted = [];
}

settle-submit_example :
    let sent = Form.submit is_email "1" "2026" filled in
    let before = or_else filled.cache.list [] in
    let after = before ++ optimistic_record filled.values "1" "2026" ∷ [] in
    let done = Form.settle (some "7") sent in
    let failed = Form.settle none sent in
    (sent.posted ≡ filled.values ∷ filled.posted)
    × (sent.cache.list ≡ some after)
    × ((done.opened ≡ false)
        × (done.values ≡ Form.empty_form)
        × (done.cache.list ≡ some after)
        × (done.pending ≡ none))
    × ((failed.opened ≡ true)
        × (failed.values ≡ filled.values)
        × (failed.cache.list ≡ some before)
        × (failed.pending ≡ none))
unfolding Form.form_issues
settle-submit_example = settle-submit is_email "1" "2026" "7" filled refl refl refl

form_issues_test : Form.form_issues is_email (record ada { last_name = "" }) ≡ Form.last_name ∷ []
unfolding Form.form_issues
form_issues_test = refl
