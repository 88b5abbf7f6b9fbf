-- ===== src/Scan/Progress.antt =====
-- The progress that the hook shows (frontend/src/hooks/useScanStream.ts).
use it_automation_workspace.Common.{◌≤◌, Bool, Option, some, List, [], ◌∷◌, Text, All, ◌≡◌, arith}
use it_automation_workspace.Json.{Json}
use it_automation_workspace.Sse.{SseFrame, Outcome}
use it_automation_workspace.Scan.{
  ScanProgressData, scan_progress_data, ◌>>=◌, Hook, new_hook, accepted, refused, start_scan,
  start_settled, on_error, dismiss_result, on_progress, on_complete, on_error_event,
}
use it_automation_workspace.Scan.Effects.{
  Effect, progressed, completed, failed, thrown, ignored, on_frame-Effect,
}
use it_automation_workspace.Scan.Guard.{
  Action, start, settle, frame, connection_error, dismiss, state_of, act, act_all,
}
use it_automation_workspace.Scan.Percent.{Rounding, round_percent-le}

module _ (rounding : Rounding) (parse_json : Text → Option Json) (is_uuid : Text → Bool) where
  -- The events of the server count at most as many hosts scanned as there are.
  abbrev pub IsCounted : Action → Type 0
  IsCounted (frame f) =
      (d : ScanProgressData)
      → (parse_json f.content >>= scan_progress_data) ≡ some d
      → d.hosts_scanned ≤ d.hosts_found
  IsCounted _ = Unit

  frame-progress-le :
      (f : SseFrame) (h : Hook) (o : Outcome Hook)
      → IsCounted (frame f)
      → h.state.progress ≤ 100
      → Effect rounding parse_json f h o
      → (state_of o).state.progress ≤ 100
  unfolding on_progress on_complete on_error_event
  frame-progress-le f h o c i (progressed d _ p e) =
      rw e (ground (arith, c d p, round_percent-le rounding d.hosts_scanned d.hosts_found))
  frame-progress-le f h o c i (completed d _ _ e) = rw e (omega arith)
  frame-progress-le f h o c i (failed d _ _ e) = rw e i
  frame-progress-le f h o c i (thrown e) = rw e i
  frame-progress-le f h o c i (ignored e) = rw e i

  act-progress-le :
      (a : Action) (h : Hook)
      → IsCounted a
      → h.state.progress ≤ 100
      → (act rounding parse_json is_uuid a h).state.progress ≤ 100
  unfolding start_scan start_settled on_error dismiss_result
  act-progress-le start h c i = ground arith
  act-progress-le (settle (refused status retry_after now)) h c i = ground arith
  act-progress-le (settle (accepted body)) h c i = ground arith
  act-progress-le (frame f) h c i =
      frame-progress-le f h _ c i (on_frame-Effect rounding parse_json f h)
  act-progress-le connection_error h c i = ground arith
  act-progress-le dismiss h c i = ground arith

  act_from-progress-le :
      (rest : List Action) (h : Hook)
      → All IsCounted rest
      → h.state.progress ≤ 100
      → (act_all rounding parse_json is_uuid rest h).state.progress ≤ 100
  act_from-progress-le [] h c i = i
  act_from-progress-le (a ∷ rest) h c i =
      act_from-progress-le rest (act rounding parse_json is_uuid a h) c.1
        (act-progress-le a h c.0 i)

  -- Whatever is done with a new hook, in any order, the progress is at most 100 percent, if the
  -- server never counts more hosts scanned than hosts in all.
  pub act_all-progress-le :
      (rest : List Action)
      → All IsCounted rest
      → (act_all rounding parse_json is_uuid rest new_hook).state.progress ≤ 100
  act_all-progress-le rest c = act_from-progress-le rest new_hook c (omega arith)
