-- ===== src/Scan/Stream.antt =====
-- A whole scan through the reader of server-sent events (frontend/src/hooks/useScanStream.ts and
-- frontend/src/lib/sse.ts).
use it_automation_workspace.Common.{
  ◌+◌, true, false, Option, some, List, [], ◌∷◌, ◌++◌, Text, codes, All, ◌≡◌, refl, arith, ◌∙◌,
}
use it_automation_workspace.Json.{Json}
use it_automation_workspace.Sse.{
  returned, Read, chunk, ended, read_loop, response, open_event_stream,
}
use it_automation_workspace.Sse.Frames.{Message, IsMessage, encode, frame_of}
use it_automation_workspace.Sse.Wire.{IsEol}
use it_automation_workspace.Sse.Delivery.{
  deliver, read_loop-encode, read_loop_of_aborted, open_event_stream-read_loop,
}
use it_automation_workspace.Scan.{
  ScanProgressData, ScanCompleteData, scan_progress_data, scan_complete_data, ◌>>=◌, Hook, complete,
  handle, on_frame, on_progress, on_complete, handlers,
}
use it_automation_workspace.Scan.Percent.{Rounding}

module _ (rounding : Rounding) (parse_json : Text → Option Json) where
  -- An event "progress" with data that the schema accepts.
  abbrev pub IsProgress : Message → Type 0
  IsProgress m =
      IsMessage m
      × (m.event ≡ codes "progress")
      × ((d : ScanProgressData) × ((parse_json (frame_of m).content >>= scan_progress_data)
            ≡ some d))

  abbrev pub IsComplete : ScanCompleteData → Message → Type 0
  IsComplete d m =
      IsMessage m
      × (m.event ≡ codes "complete")
      × ((parse_json (frame_of m).content >>= scan_complete_data) ≡ some d)

  -- Each event comes in a chunk of its own.
  abbrev pub chunks : Text → List Message → List Read
  chunks eol [] = []
  chunks eol (m ∷ ms) = chunk (encode eol (m ∷ [])) ∷ chunks eol ms

  -- What stays, whatever progress the server reports.
  record Kept (h h' : Hook) : Type 0 where
    is_aborted : h'.is_aborted ≡ h.is_aborted
    hosts_found : h'.state.hosts_found ≡ h.state.hosts_found
    assets_invalidated : h'.assets_invalidated ≡ h.assets_invalidated
    stats_invalidated : h'.stats_invalidated ≡ h.stats_invalidated
    error_message : h'.state.error_message ≡ h.state.error_message

  Kept-trans : {h h' h'' : Hook} → Kept h h' → Kept h' h'' → Kept h h''
  Kept-trans k l = ground arith

  on_frame-progress :
      (m : Message) (h : Hook)
      → IsProgress m
      → (h' : Hook) × (on_frame rounding parse_json (frame_of m) h ≡ returned h') × Kept h h'
  unfolding on_frame on_progress
  on_frame-progress m h (_, name, (d, e)) =
      (on_progress rounding parse_json d h, rw (name, on_frame) (rw (e, handle) refl), ground arith)

  on_frame_complete :
      (d : ScanCompleteData) (m : Message) (h : Hook)
      → IsComplete d m
      → on_frame rounding parse_json (frame_of m) h ≡ returned (on_complete rounding parse_json d h)
  unfolding on_frame
  on_frame_complete d m h (_, name, e) = rw (name, on_frame) (rw (e, handle) refl)

  -- A hook whose last event was "complete".
  pub record IsDone (d : ScanCompleteData) (h h' : Hook) : Type 0 where
    pub status : h'.state.status ≡ complete
    pub progress : h'.state.progress ≡ 100
    pub hosts_found : h'.state.hosts_found ≡ some d.online
    pub total_hosts : h'.state.total_hosts ≡ d.total_hosts
    pub is_aborted : h'.is_aborted ≡ true
    pub assets_invalidated : h'.assets_invalidated ≡ h.assets_invalidated + 1
    pub stats_invalidated : h'.stats_invalidated ≡ h.stats_invalidated + 1

  on_complete-IsDone :
      (d : ScanCompleteData) (h h' : Hook)
      → Kept h h'
      → IsDone d h (on_complete rounding parse_json d h')
  unfolding on_complete
  on_complete-IsDone d h h' k = ground arith

  -- One chunk with one event.
  read_loop-message :
      (eol : Text) (m : Message) (h h' : Hook) (rs : List Read)
      → IsEol eol
      → IsMessage m
      → h.is_aborted ≡ false
      → on_frame rounding parse_json (frame_of m) h ≡ returned h'
      → read_loop (handlers rounding parse_json) h [] (chunk (encode eol (m ∷ [])) ∷ rs)
        ≡ read_loop (handlers rounding parse_json) h' [] rs
  unfolding deliver
  read_loop-message eol m h h' rs e k a same =
      read_loop-encode (handlers rounding parse_json) h eol (m ∷ []) rs a e (k, tt)
      ∙ rw (same, deliver) refl

  run_scan :
      (eol : Text) (ms : List Message) (last : Message) (d : ScanCompleteData) (h h₀ : Hook)
      (r : Read) (rs : List Read)
      → IsEol eol
      → All IsProgress ms
      → IsComplete d last
      → h.is_aborted ≡ false
      → Kept h₀ h
      → (h' : Hook) × (read_loop
            (handlers rounding parse_json)
            h
            []
            (chunks eol (ms ++ last ∷ []) ++ r ∷ rs)
          ≡ ended h')
        × IsDone d h₀ h'
  run_scan eol [] last d h h₀ r rs e ps c a k =
      let h' = on_complete rounding parse_json d h in
      let done = on_complete-IsDone d h₀ h k in
      (
        h',
        read_loop-message eol last h h' (r ∷ rs) e c.0 a (on_frame_complete d last h c)
            ∙ read_loop_of_aborted (handlers rounding parse_json) h' [] r rs done.is_aborted,
        done,
      )
  run_scan eol (m ∷ ms) last d h h₀ r rs e ps c a k =
      let (h', same, kept) = on_frame-progress m h ps.0 in
      let (h'', run, done) =
        run_scan eol ms last d h' h₀ r rs e ps.1 c (kept.is_aborted ∙ a) (Kept-trans k kept) in
      (h'', read_loop-message eol m h h' _ e ps.0.0 a same ∙ run, done)

  -- A scan whose stream sends any number of events "progress" and then "complete", each in a chunk
  -- of its own, ends with the reader stopped, whatever would come after: the status is "complete",
  -- the progress 100, the numbers of hosts are those of the last event, and the queries of the
  -- assets and of their statistics have been invalidated once.
  pub open_event_stream-scan :
      (eol : Text) (ms : List Message) (last : Message) (d : ScanCompleteData) (h : Hook) (r : Read)
      (rs : List Read)
      → IsEol eol
      → All IsProgress ms
      → IsComplete d last
      → h.is_aborted ≡ false
      → (h' : Hook) × (open_event_stream
            (handlers rounding parse_json)
            (response true true)
            h
            (chunks eol (ms ++ last ∷ []) ++ r ∷ rs)
          ≡ ended h')
        × IsDone d h h'
  open_event_stream-scan eol ms last d h r rs e ps c a =
      let (h', run, done) = run_scan eol ms last d h h r rs e ps c a (ground arith) in
      (h', open_event_stream-read_loop (handlers rounding parse_json) h _ a ∙ run, done)
