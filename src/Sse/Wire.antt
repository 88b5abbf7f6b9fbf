-- ===== src/Sse/Wire.antt =====
-- The text of encoded events: its line ends and its frame boundaries (frontend/src/lib/sse.ts).
use it_automation_workspace.Common.{
  ℕ, suc, ◌+◌, false, ◌&&◌, some, List, [], ◌∷◌, ◌++◌, Text, map, lf, cr, index_of, join, length,
  take, drop, ◌==◌, subst, ◌≡◌, ◌≢◌, refl, arith, ap, sym, ◌∙◌, All, append_assoc, ◌⊎◌, inl, inr,
}
use it_automation_workspace.Sse.{boundary, normalize_newlines}
use it_automation_workspace.Sse.Newlines.{NoCrCrLf}
use it_automation_workspace.Sse.Frames.{
  IsPlain, Message, IsMessage, data_line, lines_of, encode_lines, encode, lines_of-IsPlain,
}

abbrev pub crlf : Text
crlf = cr ∷ lf ∷ []

-- The line ends that servers use.
abbrev pub IsEol : Text → Type 0
IsEol eol = (eol ≡ crlf) ⊎ (eol ≡ lf ∷ [])

-- A text that holds no boundary, and gets none from a boundary that follows it.
abbrev IsSolid : Text → Type 0
IsSolid [] = Unit
IsSolid (c ∷ []) = c ≢ lf
IsSolid (c ∷ d ∷ s) = ((c == lf && d == lf) ≡ false) × IsSolid (d ∷ s)

pub index_of-boundary :
    (x y : Text) → IsSolid x → index_of boundary (x ++ boundary ++ y) ≡ some (length x)
index_of-boundary [] y h = refl
index_of-boundary (c ∷ []) y h = ground arith
index_of-boundary (c ∷ d ∷ x) y h = ground (arith, index_of-boundary (d ∷ x) y h.1)

pub take-append : (x y : Text) → take (length x) (x ++ boundary ++ y) ≡ x
take-append [] y = refl
take-append (c ∷ x) y = ap (λ r. c ∷ r) (take-append x y)

pub drop-append : (x y : Text) → drop (length x + 2) (x ++ boundary ++ y) ≡ y
drop-append x y = let e : length x + 2 ≡ suc (suc (length x)) = omega arith in rw e (go x)
  where
    go : (x : Text) → drop (suc (suc (length x))) (x ++ boundary ++ y) ≡ y
    go [] = refl
    go (c ∷ x) = go x

IsSolid-line :
    (l : Text) (c : ℕ) (s : Text)
    → IsPlain l
    → c ≢ lf
    → IsSolid (c ∷ s)
    → IsSolid (lf ∷ c ∷ s)
    → IsSolid (l ++ lf ∷ c ∷ s)
IsSolid-line [] c s h p k m = m
IsSolid-line (d ∷ []) c s h p k m = (ground arith, m)
IsSolid-line (d ∷ e ∷ l) c s h p k m = (ground arith, IsSolid-line (e ∷ l) c s h.2 p k m)

IsSolid-of_IsPlain : (l : Text) → IsPlain l → IsSolid l
IsSolid-of_IsPlain [] h = tt
IsSolid-of_IsPlain (c ∷ []) h = h.0
IsSolid-of_IsPlain (c ∷ d ∷ l) h = (ground arith, IsSolid-of_IsPlain (d ∷ l) h.2)

-- The lines of a message begin with a letter.
pub data_lines-IsSolid :
    (l : Text) (ds : List Text)
    → IsPlain l
    → All IsPlain (map data_line ds)
    → IsSolid (join (lf ∷ []) (l ∷ map data_line ds))
data_lines-IsSolid l [] h k = IsSolid-of_IsPlain l h
data_lines-IsSolid l (d ∷ []) h k =
    let later = data_lines-IsSolid (data_line d) [] k.0 tt in
    IsSolid-line l b'd' _ h (omega arith) later (refl, later)
data_lines-IsSolid l (d ∷ e ∷ ds) h k =
    let later = data_lines-IsSolid (data_line d) (e ∷ ds) k.0 k.1 in
    IsSolid-line l b'd' _ h (omega arith) later (refl, later)

pub encode_lines-join :
    (l : Text) (ls : List Text)
    → encode_lines (lf ∷ []) (l ∷ ls) ≡ join (lf ∷ []) (l ∷ ls) ++ boundary
encode_lines-join l [] = refl
encode_lines-join l (m ∷ ls) =
    ap (λ r. l ++ lf ∷ r) (encode_lines-join m ls)
    ∙ sym (append_assoc l (lf ∷ join (lf ∷ []) (m ∷ ls)) boundary)

normalize_newlines-IsPlain :
    (l y : Text) → IsPlain l → normalize_newlines (l ++ y) ≡ l ++ normalize_newlines y
unfolding normalize_newlines
normalize_newlines-IsPlain [] y h = refl
normalize_newlines-IsPlain (c ∷ l) y h = ground (arith, normalize_newlines-IsPlain l y h.2)

normalize_newlines_eol :
    (eol y : Text) → IsEol eol → normalize_newlines (eol ++ y) ≡ lf ∷ normalize_newlines y
unfolding normalize_newlines
normalize_newlines_eol eol y (inl e) = rw e refl
normalize_newlines_eol eol y (inr e) = rw e refl

normalize_newlines-encode_lines :
    (eol : Text) (ls : List Text) (y : Text)
    → IsEol eol
    → All IsPlain ls
    → normalize_newlines (encode_lines eol ls ++ y)
      ≡ encode_lines (lf ∷ []) ls ++ normalize_newlines y
normalize_newlines-encode_lines eol [] y e h = normalize_newlines_eol eol y e
normalize_newlines-encode_lines eol (l ∷ ls) y e h =
    ap normalize_newlines (append_assoc l (eol ++ encode_lines eol ls) y)
    ∙ normalize_newlines-IsPlain l _ h.0
    ∙ ap (λ r. l ++ r)
        (ap normalize_newlines (append_assoc eol (encode_lines eol ls) y)
          ∙ normalize_newlines_eol eol _ e
          ∙ ap (λ r. lf ∷ r) (normalize_newlines-encode_lines eol ls y e h.1))
    ∙ sym (append_assoc l (lf ∷ encode_lines (lf ∷ []) ls) (normalize_newlines y))

pub normalize_newlines-encode :
    (eol : Text) (ms : List Message)
    → IsEol eol
    → All IsMessage ms
    → normalize_newlines (encode eol ms) ≡ encode (lf ∷ []) ms
unfolding normalize_newlines
normalize_newlines-encode eol [] e h = refl
normalize_newlines-encode eol (m ∷ ms) e h =
    normalize_newlines-encode_lines eol (lines_of m) (encode eol ms) e (lines_of-IsPlain m h.0)
    ∙ ap (λ r. encode_lines (lf ∷ []) (lines_of m) ++ r) (normalize_newlines-encode eol ms e h.1)

NoCrCrLf-append : (l s : Text) → IsPlain l → NoCrCrLf s → NoCrCrLf (l ++ s)
NoCrCrLf-append [] s h k = k
NoCrCrLf-append (c ∷ l) s h k = (ground arith, NoCrCrLf-append l s h.2 k)

NoCrCrLf-eol : (eol s : Text) → IsEol eol → NoCrCrLf s → NoCrCrLf (eol ++ s)
NoCrCrLf-eol eol s (inl e) k = rw e (refl, (refl, k))
NoCrCrLf-eol eol s (inr e) k = rw e (refl, k)

-- A line end is followed by a line that begins with a letter, by another one, or by nothing.
NoCrCrLf-encode_lines :
    (eol : Text) (ls : List Text) (s : Text)
    → IsEol eol
    → All IsPlain ls
    → NoCrCrLf s
    → NoCrCrLf (encode_lines eol ls ++ s)
NoCrCrLf-encode_lines eol [] s e h k = NoCrCrLf-eol eol s e k
NoCrCrLf-encode_lines eol (l ∷ ls) s e h k =
    subst NoCrCrLf
      (sym (
        append_assoc l (eol ++ encode_lines eol ls) s
        ∙ ap (λ r. l ++ r) (append_assoc eol (encode_lines eol ls) s)))
      (NoCrCrLf-append l _ h.0 (NoCrCrLf-eol eol _ e (NoCrCrLf-encode_lines eol ls s e h.1 k)))

pub NoCrCrLf-encode :
    (eol : Text) (ms : List Message) → IsEol eol → All IsMessage ms → NoCrCrLf (encode eol ms)
NoCrCrLf-encode eol [] e h = tt
NoCrCrLf-encode eol (m ∷ ms) e h =
    NoCrCrLf-encode_lines eol (lines_of m) (encode eol ms) e (lines_of-IsPlain m h.0)
      (NoCrCrLf-encode eol ms e h.1)
