-- ===== src/Sse/Chunks.antt =====
-- The reader and the ways to cut a stream into chunks (frontend/src/lib/sse.ts).
use it_automation_workspace.Common.{
  ℕ, zero, suc, ◌+◌, ◌≤◌, true, false, none, List, [], ◌∷◌, ◌++◌, Text, map, index_of,
  if◌then◌else◌, ◌≡◌, refl, arith, Option-cases, inl, inr, length, drop, ap, sym, ◌∙◌, concat,
  append-nil, append_assoc, length-drop, subst,
}
use it_automation_workspace.Sse.{
  Handlers, Outcome, returned, threw, Drained, reading, failed, boundary, drain, normalize_newlines,
  on_chunk, Read, chunk, Reader, ended, read_loop, response, open_event_stream,
}
use it_automation_workspace.Sse.Newlines.{
  NoCrLf, NoCrCrLf, starts_lf, trim_cr, normalize_newlines-append, normalize_newlines_of_NoCrLf,
  normalize_newlines-NoCrLf, NoCrLf-drop, NoCrCrLf-of_append,
}
use it_automation_workspace.Sse.Loop.{
  and_then, drain_all, after_handler, drain-none, drain-some, drain-append, index_of-boundary-le,
}

module _ {S : Type 0} (h : Handlers S) where
  -- What holds of the rest of the buffer when the loop over its frames ends by its test.
  abbrev pub Leaves : (Text → Type 0) → Drained S → Type 0
  Leaves P (reading s r) = P r
  Leaves P (failed s) = Unit

  and_then-cong :
      (P : Text → Type 0) (d : Drained S) (k k' : S → Text → Drained S)
      → Leaves P d
      → ((s : S) (r : Text) → P r → k s r ≡ k' s r)
      → and_then h d k ≡ and_then h d k'
  and_then-cong P (reading s r) k k' l e = e s r l
  and_then-cong P (failed s) k k' l e = refl

  after_handler-Leaves :
      (P : Text → Type 0) (o : Outcome S) (k : S → Drained S)
      → ((s : S) → Leaves P (k s))
      → Leaves P (after_handler h o k)
  after_handler-Leaves P (returned s) k l = l s
  after_handler-Leaves P (threw s) k l = tt

  -- The rest of a buffer is a tail of it.
  drain-NoCrLf : (n : ℕ) (s : S) (x : Text) → NoCrLf x → Leaves NoCrLf (drain h n s x)
  unfolding drain
  drain-NoCrLf zero s x l = l
  drain-NoCrLf (suc n) s x l = elim (Option-cases (index_of boundary x)) [
    | inl e ↦ rw (drain-none h (suc n) s x e) l
    | inr (at, e) ↦ rw (drain-some h n s x e) (
        after_handler-Leaves NoCrLf _ _
          (λ s'. drain-NoCrLf n s' (drop (at + 2) x) (NoCrLf-drop (at + 2) x l)))
  ]

  -- With the fuel that the chunk handler gives, the loop ends by its test.
  drain-no_boundary :
      (n : ℕ) (s : S) (x : Text)
      → length x ≤ n
      → Leaves (λ r. index_of boundary r ≡ none) (drain h n s x)
  drain-no_boundary zero s [] p = rw (drain-none h zero s [] refl) refl
  drain-no_boundary zero s (c ∷ x) p = absurd (omega arith)
  drain-no_boundary (suc n) s x p = elim (Option-cases (index_of boundary x)) [
    | inl e ↦ rw (drain-none h (suc n) s x e) e
    | inr (at, e) ↦ rw (drain-some h n s x e) (
        after_handler-Leaves (λ r. index_of boundary r ≡ none) _ _
          (λ s'.
            drain-no_boundary n s' (drop (at + 2) x)
              (omega (arith, length-drop (at + 2) x, index_of-boundary-le x at e))))
  ]

  on_chunk-append :
      (a b : Text) (s : S) (buffer : Text)
      → NoCrCrLf (buffer ++ a)
      → on_chunk h (a ++ b) s buffer ≡ and_then h (on_chunk h a s buffer) (on_chunk h b)
  unfolding on_chunk
  on_chunk-append a b s buffer clean =
      let p = buffer ++ a in
      let whole : normalize_newlines (buffer ++ (a ++ b))
          ≡ trim_cr (starts_lf b) (normalize_newlines p) ++ normalize_newlines b =
        ap normalize_newlines (sym (append_assoc buffer a b)) ∙ normalize_newlines-append p b in
      ap (drain_all h s) whole
      ∙ drain-append h (starts_lf b) _ _ s (normalize_newlines p) (normalize_newlines b)
          (omega arith) (omega arith)
      ∙ and_then-cong NoCrLf (drain_all h s (normalize_newlines p)) _ _
          (drain-NoCrLf _ s (normalize_newlines p) (normalize_newlines-NoCrLf p clean))
          (λ s' r l. ap (drain_all h s') (
            sym (
              normalize_newlines-append r b
              ∙ ap (λ x. trim_cr (starts_lf b) x ++ normalize_newlines b)
                  (normalize_newlines_of_NoCrLf r l))))

  -- What the read loop does with the outcome of a chunk.
  abbrev pub after_chunk : Drained S → (S → Text → Reader S) → Reader S
  after_chunk (reading s r) k = k s r
  after_chunk (failed s) k = ended (h.on_error s)

  pub read_loop-chunk :
      (a : Text) (s : S) (buffer : Text) (rs : List Read)
      → h.is_aborted s ≡ false
      → read_loop h s buffer (chunk a ∷ rs)
        ≡ after_chunk (on_chunk h a s buffer) (λ s' r. read_loop h s' r rs)
  unfolding read_loop
  read_loop-chunk a s buffer rs e = rw (e, read_loop) (same (on_chunk h a s buffer))
    where
      same :
          (d : Drained S)
          → (elim d [ reading s' r ↦ read_loop h s' r rs | failed s' ↦ ended (h.on_error s') ])
            ≡ after_chunk d (λ s' r. read_loop h s' r rs)
      same (reading s' r) = refl
      same (failed s') = refl

  module _ (never : (s : S) → h.is_aborted s ≡ false) where
    after_chunk-and_then :
        (d : Drained S) (b : Text) (rs : List Read)
        → after_chunk (and_then h d (on_chunk h b)) (λ s r. read_loop h s r rs)
          ≡ after_chunk d (λ s r. read_loop h s r (chunk b ∷ rs))
    after_chunk-and_then (reading s r) b rs = sym (read_loop-chunk b s r rs (never s))
    after_chunk-and_then (failed s) b rs = refl

    -- Two chunks do what one chunk of both does.
    read_loop-append :
        (a b : Text) (s : S) (rs : List Read)
        → NoCrCrLf a
        → read_loop h s [] (chunk a ∷ chunk b ∷ rs) ≡ read_loop h s [] (chunk (a ++ b) ∷ rs)
    read_loop-append a b s rs clean =
        read_loop-chunk a s [] (chunk b ∷ rs) (never s)
        ∙ sym (
            read_loop-chunk (a ++ b) s [] rs (never s)
            ∙ ap (λ d. after_chunk d (λ s' r. read_loop h s' r rs)) (on_chunk-append a b s [] clean)
            ∙ after_chunk-and_then (on_chunk h a s []) b rs)

    read_loop-concat :
        (c : Text) (cs : List Text) (s : S) (rs : List Read)
        → NoCrCrLf (c ++ concat cs)
        → read_loop h s [] (chunk c ∷ map chunk cs ++ rs)
          ≡ read_loop h s [] (chunk (c ++ concat cs) ∷ rs)
    read_loop-concat c [] s rs clean =
        ap (λ t. read_loop h s [] (chunk t ∷ rs)) (sym (append-nil c))
    read_loop-concat c (d ∷ cs) s rs clean =
        let clean' : NoCrCrLf ((c ++ d) ++ concat cs) = rw append_assoc clean in
        read_loop-append c d s (map chunk cs ++ rs) (NoCrCrLf-of_append c (d ++ concat cs) clean)
        ∙ read_loop-concat (c ++ d) cs s rs clean'
        ∙ ap (λ t. read_loop h s [] (chunk t ∷ rs)) (append_assoc c d (concat cs))

  -- However the network cuts a stream into chunks, the handlers are called as if it had come in a
  -- single chunk. The conditions: the callbacks do not abort the stream, and the text has no "\r"
  -- before a "\r\n".
  pub open_event_stream-concat :
      (s : S) (c : Text) (cs : List Text) (rs : List Read)
      → ((s : S) → h.is_aborted s ≡ false)
      → NoCrCrLf (c ++ concat cs)
      → open_event_stream h (response true true) s (chunk c ∷ map chunk cs ++ rs)
        ≡ open_event_stream h (response true true) s (chunk (c ++ concat cs) ∷ rs)
  unfolding open_event_stream
  open_event_stream-concat s c cs rs never clean =
      ap (λ r. if h.is_aborted s then ended s else r) (read_loop-concat never c cs s rs clean)

  -- The loop over the frames of a chunk ends by its own test: what it leaves in the buffer holds no
  -- frame boundary. So the fuel of the model is always enough.
  pub on_chunk-no_boundary :
      (text : Text) (s : S) (buffer : Text) {s' : S} {r : Text}
      → on_chunk h text s buffer ≡ reading s' r
      → index_of boundary r ≡ none
  unfolding on_chunk
  on_chunk-no_boundary text s buffer e =
      let x = normalize_newlines (buffer ++ text) in
      subst (Leaves (λ t. index_of boundary t ≡ none)) e
        (drain-no_boundary (length x) s x (omega arith))
