-- ===== src/Sse/Delivery.antt =====
-- From the events that a server sends to the calls of the handlers (frontend/src/lib/sse.ts).
use it_automation_workspace.Common.{
  ℕ, zero, suc, ◌≤◌, true, false, none, some, List, [], ◌∷◌, ◌++◌, Text, map, lf, join, length,
  concat, subst, ◌≡◌, refl, arith, ap, ap₂, sym, ◌∙◌, All, length-append,
}
use it_automation_workspace.Sse.{
  Handlers, Outcome, returned, threw, reading, boundary, process_frame, drain, on_chunk, Read,
  chunk, done, Reader, ended, read_loop, response, open_event_stream,
}
use it_automation_workspace.Sse.Newlines.{NoCrCrLf}
use it_automation_workspace.Sse.Loop.{after_handler, drain-none, drain-some}
use it_automation_workspace.Sse.Chunks.{after_chunk, read_loop-chunk, open_event_stream-concat}
use it_automation_workspace.Sse.Frames.{
  Message, IsMessage, event_line, data_line, lines_of, encode_lines, encode, frame_of,
  lines_of-IsPlain, parse_frame-join,
}
use it_automation_workspace.Sse.Wire.{
  index_of-boundary, take-append, drop-append, data_lines-IsSolid, encode_lines-join,
  normalize_newlines-encode, NoCrCrLf-encode, IsEol,
}

module _ {S : Type 0} (h : Handlers S) where
  -- The calls of `onFrame`, in order, up to one that throws.
  unfoldable pub deliver : S → List Message → Outcome S
  deliver s [] = returned s
  deliver s (m ∷ ms) = elim (h.on_frame (frame_of m) s) [
    | returned s' ↦ deliver s' ms
    | threw s' ↦ threw s'
  ]

  drain-encode :
      (n : ℕ) (s : S) (ms : List Message)
      → length (encode (lf ∷ []) ms) ≤ n
      → All IsMessage ms
      → drain h n s (encode (lf ∷ []) ms) ≡ after_handler h (deliver s ms) (λ s'. reading s' [])
  unfolding deliver
  drain-encode n s [] p k = drain-none h n s [] refl
  drain-encode zero s (m ∷ ms) p k = absurd (omega arith)
  drain-encode (suc n) s (m ∷ ms) p k =
      let x = join (lf ∷ []) (lines_of m) in
      let later = encode (lf ∷ []) ms in
      let split : encode (lf ∷ []) (m ∷ ms) ≡ x ++ boundary ++ later =
        ap (λ r. r ++ later) (encode_lines-join (event_line m.event) (map data_line m.content)) in
      let solid =
        data_lines-IsSolid (event_line m.event) m.content (lines_of-IsPlain m k.0).0
          (lines_of-IsPlain m k.0).1 in
      let fits : length later ≤ n =
        omega (arith, length-append (encode_lines (lf ∷ []) (lines_of m)) later, p) in
      ap (drain h (suc n) s) split
      ∙ drain-some h n s (x ++ boundary ++ later) (index_of-boundary x later solid)
      ∙ ap₂ (λ t r. after_handler h (process_frame h t s) (λ s'. drain h n s' r))
          (take-append x later) (drop-append x later)
      ∙ ap
          (λ f.
            after_handler h
              (elim f as (λ _. Outcome S) [
                | none ↦ returned (h.on_heartbeat s)
                | some frame ↦ h.on_frame frame s
              ])
              (λ s'. drain h n s' later))
          (parse_frame-join m k.0)
      ∙ same (h.on_frame (frame_of m) s) (λ s'. drain-encode n s' ms fits k.1)
    where
      same :
          (o : Outcome S)
          → ((s' : S)
              → drain h n s' (encode (lf ∷ []) ms)
                ≡ after_handler h (deliver s' ms) (λ t. reading t []))
          → after_handler h o (λ s'. drain h n s' (encode (lf ∷ []) ms))
            ≡ after_handler h
                (elim o as (λ _. Outcome S) [ returned s' ↦ deliver s' ms | threw s' ↦ threw s' ])
                (λ t. reading t [])
      same (returned s') ih = ih s'
      same (threw s') ih = refl

  -- An aborted stream is not read any more.
  pub read_loop_of_aborted :
      (s : S) (buffer : Text) (r : Read) (rs : List Read)
      → h.is_aborted s ≡ true
      → read_loop h s buffer (r ∷ rs) ≡ ended s
  unfolding read_loop
  read_loop_of_aborted s buffer r rs e = rw (e, read_loop) refl

  pub open_event_stream-read_loop :
      (s : S) (rs : List Read)
      → h.is_aborted s ≡ false
      → open_event_stream h (response true true) s rs ≡ read_loop h s [] rs
  unfolding open_event_stream
  open_event_stream-read_loop s rs e = rw (e, open_event_stream) refl

  -- A chunk of whole events: they are delivered in order, and then the reader goes on, or stops at
  -- an exception.
  abbrev pub after_delivery : Outcome S → (S → Reader S) → Reader S
  after_delivery (returned s) k = k s
  after_delivery (threw s) k = ended (h.on_error s)

  pub read_loop-encode :
      (s : S) (eol : Text) (ms : List Message) (rs : List Read)
      → h.is_aborted s ≡ false
      → IsEol eol
      → All IsMessage ms
      → read_loop h s [] (chunk (encode eol ms) ∷ rs)
        ≡ after_delivery (deliver s ms) (λ s'. read_loop h s' [] rs)
  unfolding on_chunk
  read_loop-encode s eol ms rs a e k =
      read_loop-chunk h (encode eol ms) s [] rs a
      ∙ ap (λ t. after_chunk h (drain h (length t) s t) (λ s' r. read_loop h s' r rs))
          (normalize_newlines-encode eol ms e k)
      ∙ ap (λ d. after_chunk h d (λ s' r. read_loop h s' r rs))
          (drain-encode _ s ms (omega arith) k)
      ∙ same (deliver s ms)
    where
      same :
          (o : Outcome S)
          → after_chunk h (after_handler h o (λ t. reading t [])) (λ s' r. read_loop h s' r rs)
            ≡ after_delivery o (λ s'. read_loop h s' [] rs)
      same (returned s') = refl
      same (threw s') = refl

  -- How the reader ends after the last event: `onClose`, or `onError` where a handler has thrown.
  abbrev pub close : Outcome S → Reader S
  close (returned s) = ended (h.on_close s)
  close (threw s) = ended (h.on_error s)

  -- Every event that the server sends is delivered once, in the order sent, and then the stream is
  -- closed; if a call of `onFrame` throws, no later event is delivered and the exception goes to
  -- `onError`. It holds for "\n" and "\r\n" as line ends and for every way to cut the text into
  -- chunks, if the callbacks do not abort the stream and the events' names and lines hold no line
  -- end and no white space at their ends.
  pub open_event_stream-encode :
      (s : S) (eol : Text) (ms : List Message) (c : Text) (cs : List Text)
      → ((s : S) → h.is_aborted s ≡ false)
      → IsEol eol
      → All IsMessage ms
      → c ++ concat cs ≡ encode eol ms
      → open_event_stream h (response true true) s (chunk c ∷ map chunk cs ++ done ∷ [])
        ≡ close (deliver s ms)
  unfolding open_event_stream read_loop
  open_event_stream-encode s eol ms c cs never e k cut =
      open_event_stream-concat h s c cs (done ∷ []) never
        (subst NoCrCrLf (sym cut) (NoCrCrLf-encode eol ms e k))
      ∙ ap (λ t. open_event_stream h (response true true) s (chunk t ∷ done ∷ [])) cut
      ∙ rw (never s) (read_loop-encode s eol ms (done ∷ []) (never s) e k)
      ∙ closes (deliver s ms)
    where
      closes : (o : Outcome S) → after_delivery o (λ s'. read_loop h s' [] (done ∷ [])) ≡ close o
      closes (returned s') = rw (never s', read_loop) refl
      closes (threw s') = refl
