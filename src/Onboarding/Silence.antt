-- ===== src/Onboarding/Silence.antt =====
-- The reader of `useOnboardingJobStream` (frontend/src/hooks/useOnboarding.ts), which does not
-- normalise line ends, and a stream whose lines end with "\r\n", as sse-starlette writes it.
use Prim.Native.String.{String}
use it_automation_workspace.Common.{
  ℕ, zero, suc, true, false, ◌&&◌, Option, none, List, [], ◌∷◌, ◌++◌, Text, lf, map, concat, ◌==◌,
  starts_with, index_of, length, ◌≡◌, refl, arith, All, append_assoc, ap, sym, ◌∙◌, subst,
}
use it_automation_workspace.Json.{Json}
use it_automation_workspace.Sse.{Read, chunk, done, boundary}
use it_automation_workspace.Sse.Frames.{
  IsPlain, Message, IsMessage, lines_of, encode_lines, encode, lines_of-IsPlain,
}
use it_automation_workspace.Sse.Wire.{crlf}
use it_automation_workspace.Onboarding.{Cache}
use it_automation_workspace.Onboarding.JobStream.{
  Follower, following, returned, drain, follow, connect, answered,
}

-- No "\n" stands before another one.
abbrev pub NoLfLf : Text → Type 0
NoLfLf [] = Unit
NoLfLf (c ∷ s) = ((c == lf && starts_with (lf ∷ []) s) ≡ false) × NoLfLf s

index_of_of_NoLfLf : (s : Text) → NoLfLf s → index_of boundary s ≡ none
index_of_of_NoLfLf [] h = refl
index_of_of_NoLfLf (c ∷ s) h = ground (arith, index_of_of_NoLfLf s h.1)

NoLfLf-of_append : (a b : Text) → NoLfLf (a ++ b) → NoLfLf a
NoLfLf-of_append [] b h = tt
NoLfLf-of_append (c ∷ []) b h = (ground arith, tt)
NoLfLf-of_append (c ∷ d ∷ a) b h = (h.0, NoLfLf-of_append (d ∷ a) b h.1)

-- A text of lines that end with "\r\n" has no "\n" before another, and none at its start.
abbrev IsClean : Text → Type 0
IsClean s = NoLfLf s × (starts_with (lf ∷ []) s ≡ false)

IsClean-append : (l s : Text) → IsPlain l → IsClean s → IsClean (l ++ s)
IsClean-append [] s h k = k
IsClean-append (c ∷ l) s h k = ((ground arith, (IsClean-append l s h.2 k).0), ground arith)

IsClean-crlf : (s : Text) → IsClean s → IsClean (crlf ++ s)
IsClean-crlf s k = ((refl, (k.1, k.0)), refl)

IsClean-encode_lines :
    (ls : List Text) (s : Text) → All IsPlain ls → IsClean s → IsClean (encode_lines crlf ls ++ s)
IsClean-encode_lines [] s h k = IsClean-crlf s k
IsClean-encode_lines (l ∷ ls) s h k =
    subst IsClean
      (sym (
        append_assoc l (crlf ++ encode_lines crlf ls) s
        ∙ ap (λ r. l ++ r) (append_assoc crlf (encode_lines crlf ls) s)))
      (IsClean-append l _ h.0 (IsClean-crlf _ (IsClean-encode_lines ls s h.1 k)))

IsClean-encode : (ms : List Message) → All IsMessage ms → IsClean (encode crlf ms)
IsClean-encode [] h = (tt, refl)
IsClean-encode (m ∷ ms) h =
    IsClean-encode_lines (lines_of m) (encode crlf ms) (lines_of-IsPlain m h.0)
      (IsClean-encode ms h.1)

module _ (parse_json : Text → Option Json) (job_id : String) where
  drain-none :
      (n : ℕ) (c : Cache) (buffer : Text)
      → index_of boundary buffer ≡ none
      → drain parse_json job_id n c buffer ≡ following c buffer
  unfolding drain
  drain-none zero c buffer e = refl
  drain-none (suc n) c buffer e = rw (e, drain) refl

  after_drain : Follower → List Read → Follower
  after_drain (following c rest) rs = follow parse_json job_id c rest rs
  after_drain (returned c) rs = returned c

  follow-chunk :
      (c : Cache) (buffer t : Text) (rs : List Read)
      → follow parse_json job_id c buffer (chunk t ∷ rs)
        ≡ after_drain (drain parse_json job_id (length (buffer ++ t)) c (buffer ++ t)) rs
  unfolding follow after_drain
  follow-chunk c buffer t rs = same (drain parse_json job_id (length (buffer ++ t)) c (buffer ++ t))
    where
      same :
          (d : Follower)
          → (elim d [
            | following c' rest ↦ follow parse_json job_id c' rest rs
            | returned c' ↦ returned c'
          ])
            ≡ after_drain d rs
      same (following c' rest) = refl
      same (returned c') = refl

  follow_of_NoLfLf :
      (c : Cache) (buffer : Text) (ts : List Text)
      → NoLfLf (buffer ++ concat ts)
      → follow parse_json job_id c buffer (map chunk ts ++ done ∷ []) ≡ returned c
  unfolding follow after_drain
  follow_of_NoLfLf c buffer [] h = refl
  follow_of_NoLfLf c buffer (t ∷ ts) h =
      let h' : NoLfLf ((buffer ++ t) ++ concat ts) =
        subst NoLfLf (sym (append_assoc buffer t (concat ts))) h in
      follow-chunk c buffer t (map chunk ts ++ done ∷ [])
      ∙ ap (λ d. after_drain d (map chunk ts ++ done ∷ []))
          (drain-none _ c (buffer ++ t)
            (index_of_of_NoLfLf (buffer ++ t) (NoLfLf-of_append (buffer ++ t) (concat ts) h')))
      ∙ follow_of_NoLfLf c (buffer ++ t) ts h'

  -- The hook that follows a job ignores every event of a stream whose lines end with "\r\n",
  -- however it is cut into chunks: the connection is accepted, the whole stream is read, and the
  -- cache is as before, so that the record keeps its status and the job stays watched.
  pub connect-encode-crlf :
      (c : Cache) (ms : List Message) (ts : List Text)
      → All IsMessage ms
      → concat ts ≡ encode crlf ms
      → connect parse_json job_id (answered 200 true) c (map chunk ts ++ done ∷ []) ≡ returned c
  unfolding connect
  connect-encode-crlf c ms ts h cut =
      follow_of_NoLfLf c [] ts (subst NoLfLf (sym cut) (IsClean-encode ms h).0)
