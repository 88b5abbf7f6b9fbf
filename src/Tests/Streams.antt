-- ===== src/Tests/Streams.antt =====
-- Streams of server-sent events that a recorder of frames reads.
use it_automation_workspace.Common.{
  Bool, true, false, not, ◌&&◌, ◌==◌, starts_with, none, List, [], ◌∷◌, ◌++◌, Text, codes, lf, cr,
  map, concat, take, drop, ◌≡◌, refl, arith, inl,
}
use it_automation_workspace.Sse.{
  SseFrame, Handlers, returned, chunk, done, response, open_event_stream, normalize_newlines,
}
use it_automation_workspace.Sse.Frames.{Message, IsMessage, encode}
use it_automation_workspace.Sse.Newlines.{NoCrCrLf}
use it_automation_workspace.Sse.Chunks.{open_event_stream-concat}
use it_automation_workspace.Sse.Wire.{crlf}
use it_automation_workspace.Sse.Delivery.{close, deliver, open_event_stream-encode}
use it_automation_workspace.Onboarding.{Cache}
use it_automation_workspace.Onboarding.JobStream.{connect, answered}
use it_automation_workspace.Onboarding.JobStream as JobStream
use it_automation_workspace.Onboarding.Silence.{connect-encode-crlf}

abbrev no_cr_cr_lf : Text → Bool
no_cr_cr_lf [] = true
no_cr_cr_lf (c ∷ s) = not (c == cr && starts_with (cr ∷ lf ∷ []) s) && no_cr_cr_lf s

NoCrCrLf-of_test : (s : Text) → no_cr_cr_lf s ≡ true → NoCrCrLf s
NoCrCrLf-of_test [] h = tt
NoCrCrLf-of_test (c ∷ s) h = (ground arith, NoCrCrLf-of_test s (ground arith))

-- It keeps the frames that it is given, and aborts nothing.
abbrev recorder : Handlers (List SseFrame)
recorder = record {
  on_frame = λ f s. returned (s ++ f ∷ []);
  on_heartbeat = λ s. s;
  on_error = λ s. s;
  on_close = λ s. s;
  is_aborted = λ s. false;
}

abbrev progress_message : Message
progress_message = record { event = codes "progress"; content = codes "{}" ∷ codes "[1]" ∷ [] }

progress_message-IsMessage : IsMessage progress_message
progress_message-IsMessage = ground arith

abbrev complete_message : Message
complete_message = record { event = codes "complete"; content = codes "{}" ∷ [] }

complete_message-IsMessage : IsMessage complete_message
complete_message-IsMessage = ground arith

abbrev two_messages : List Message
two_messages = progress_message ∷ complete_message ∷ []

-- The text of the two messages, cut inside a line end.
abbrev first_chunk : Text
first_chunk = take 17 (encode crlf two_messages)

abbrev second_chunk : Text
second_chunk = drop 17 (encode crlf two_messages)

open_event_stream-encode_example :
    open_event_stream recorder
      (response true true)
      []
      (chunk first_chunk ∷ map chunk (second_chunk ∷ []) ++ done ∷ [])
    ≡ close recorder (deliver recorder [] two_messages)
open_event_stream-encode_example =
    open_event_stream-encode recorder [] crlf two_messages first_chunk (second_chunk ∷ [])
      (λ s. refl) (inl refl) (progress_message-IsMessage, (complete_message-IsMessage, tt)) refl

open_event_stream-concat_example :
    open_event_stream recorder
      (response true true)
      []
      (chunk first_chunk ∷ map chunk (second_chunk ∷ []) ++ done ∷ [])
    ≡ open_event_stream recorder
        (response true true)
        []
        (chunk (first_chunk ++ concat (second_chunk ∷ [])) ∷ done ∷ [])
open_event_stream-concat_example =
    open_event_stream-concat recorder [] first_chunk (second_chunk ∷ []) (done ∷ []) (λ s. refl)
      (NoCrCrLf-of_test (first_chunk ++ concat (second_chunk ∷ [])) refl)

abbrev empty_cache : Cache
empty_cache = record { list = none; watched = "job" ∷ []; invalidated = 0; toasts = [] }

connect-encode-crlf_example :
    connect
      (λ t. none)
      "job"
      (answered 200 true)
      empty_cache
      (map chunk (encode crlf two_messages ∷ []) ++ done ∷ [])
    ≡ JobStream.returned empty_cache
connect-encode-crlf_example =
    connect-encode-crlf (λ t. none) "job" empty_cache two_messages (encode crlf two_messages ∷ [])
      (progress_message-IsMessage, (complete_message-IsMessage, tt)) refl

-- A normalised text keeps the "\r" that no "\n" follows.
normalize_newlines_test : normalize_newlines (codes "a\r\nb\rc\n") ≡ codes "a\nb\rc\n"
unfolding normalize_newlines
normalize_newlines_test = refl
