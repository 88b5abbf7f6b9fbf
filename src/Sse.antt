-- ===== src/Sse.antt =====
-- The fetch-based reader of server-sent events, frontend/src/lib/sse.ts: `processFrame`, and the
-- read loop of `openEventStream` over the chunks that the network delivers.
pub mod Newlines
pub mod Loop
pub mod Chunks
pub mod Frames
pub mod Wire
pub mod Delivery
use it_automation_workspace.Common.{
  ℕ, zero, suc, ◌+◌, Bool, true, false, ◌&&◌, Option, none, some, List, [], ◌∷◌, ◌++◌, Text, codes,
  lf, cr, starts_with, index_of, split_on, join, trim, length, take, drop, ◌==◌, if◌then◌else◌,
}

-- `SSEFrame`
pub record SseFrame : Type 0 where
  pub event : Text
  pub content : Text

-- How a call of a handler ends: it returns, or it throws.
pub data Outcome (S : Type 0) : Type 0 where
  returned : S → Outcome S
  threw : S → Outcome S

-- `SSEStreamHandlers`, over the state `S` that the callbacks share. `is_aborted` tells whether they
-- have called `abort()` on the stream's controller. An absent callback is one that does nothing.
pub record Handlers (S : Type 0) : Type 0 where
  pub on_frame : SseFrame → S → Outcome S
  pub on_heartbeat : S → S
  pub on_error : S → S
  pub on_close : S → S
  pub is_aborted : S → Bool

-- `buffer.replace(/\r\n/g, "\n")`: each "\r" that stands before a "\n" goes.
unfoldable pub normalize_newlines : Text → Text
normalize_newlines [] = []
normalize_newlines (c ∷ s) =
    let rest = normalize_newlines s in if c == cr && starts_with (lf ∷ []) s then rest else c ∷ rest

abbrev pub boundary : Text
boundary = lf ∷ lf ∷ []

-- The variables that the loop over a frame's lines changes.
pub record FrameLines : Type 0 where
  pub event : Text
  pub data_lines : List Text
  pub is_comment_only : Bool

abbrev pub event_field : Text
event_field = codes "event:"

abbrev pub data_field : Text
data_field = codes "data:"

-- One round of that loop.
pub read_line : FrameLines → Text → FrameLines
read_line acc line =
    if starts_with (codes ":") line
    then acc
    else if starts_with event_field line
    then record acc { event = trim (drop (length event_field) line); is_comment_only = false }
    else if starts_with data_field line
    then record acc {
      data_lines = acc.data_lines ++ trim (drop (length data_field) line) ∷ [];
      is_comment_only = false;
    }
    else record acc { is_comment_only = false }

pub read_lines : FrameLines → List Text → FrameLines
read_lines acc [] = acc
read_lines acc (line ∷ lines) = read_lines (read_line acc line) lines

abbrev pub no_lines : FrameLines
no_lines = record { event = codes "message"; data_lines = []; is_comment_only = true }

-- What a raw frame amounts to: `none` for a frame of comments only.
unfoldable pub parse_frame : Text → Option SseFrame
unfolding read_line read_lines
parse_frame raw =
    let acc = read_lines no_lines (split_on lf raw) in
    if acc.is_comment_only
    then none
    else some (record { event = acc.event; content = join (lf ∷ []) acc.data_lines })

-- Where the loop over the frames of a buffer ends: with what is left of the buffer, or in an
-- exception of a handler.
pub data Drained (S : Type 0) : Type 0 where
  reading : S → Text → Drained S
  failed : S → Drained S

-- What `reader.read()` settles with: a chunk, the end of the stream, or a network error.
pub data Read : Type 0 where
  chunk : Text → Read
  done : Read
  broken : Read

-- What `fetch` settles with.
pub data Response : Type 0 where
  unreachable : Response
  response : (is_ok has_body : Bool) → Response

-- The reader waits for the next chunk, or its asynchronous function has ended.
pub data Reader (S : Type 0) : Type 0 where
  waiting : S → Text → Reader S
  ended : S → Reader S

module _ {S : Type 0} (h : Handlers S) where
  -- `processFrame`
  abbrev pub process_frame : Text → S → Outcome S
  process_frame raw s = elim (parse_frame raw) [
    | none ↦ returned (h.on_heartbeat s)
    | some frame ↦ h.on_frame frame s
  ]

  -- `while ((boundary = buffer.indexOf("\n\n")) !== -1)`
  pub drain : ℕ → S → Text → Drained S
  drain zero s buffer = reading s buffer
  drain (suc fuel) s buffer = elim (index_of boundary buffer) [
    | none ↦ reading s buffer
    | some at ↦ elim (process_frame (take at buffer) s) [
      | returned s' ↦ drain fuel s' (drop (at + 2) buffer)
      | threw s' ↦ failed s'
    ]
  ]

  -- The body of the read loop for one chunk. A round of `drain` takes two code units at least.
  unfoldable pub on_chunk : Text → S → Text → Drained S
  unfolding drain
  on_chunk text s buffer =
      let buffer' = normalize_newlines (buffer ++ text) in drain (length buffer') s buffer'

  -- The read loop. An aborted stream settles its next read with an `AbortError`, which the
  -- function swallows; other exceptions go to `onError`.
  unfoldable pub read_loop : S → Text → List Read → Reader S
  read_loop s buffer [] = waiting s buffer
  read_loop s buffer (r ∷ rs) = elim (h.is_aborted s) [
    | true ↦ ended s
    | false ↦ elim r [
      | chunk text ↦ elim (on_chunk text s buffer) [
        | reading s' buffer' ↦ read_loop s' buffer' rs
        | failed s' ↦ ended (h.on_error s')
      ]
      | done ↦ ended (h.on_close s)
      | broken ↦ ended (h.on_error s)
    ]
  ]

  -- `openEventStream`
  unfoldable pub open_event_stream : Response → S → List Read → Reader S
  unfolding read_loop
  open_event_stream unreachable s rs = if h.is_aborted s then ended s else ended (h.on_error s)
  open_event_stream (response is_ok has_body) s rs =
      if h.is_aborted s
      then ended s
      else if is_ok && has_body
      then read_loop s [] rs
      else ended (h.on_error s)
