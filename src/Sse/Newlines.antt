-- ===== src/Sse/Newlines.antt =====
-- Normalising the line ends of a buffer that grows by chunks (frontend/src/lib/sse.ts).
use it_automation_workspace.Common.{
  ℕ, zero, suc, Bool, false, ◌&&◌, ◌||◌, [], ◌∷◌, ◌++◌, Text, lf, cr, starts_with, ◌==◌,
  if◌then◌else◌, ◌≡◌, refl, arith, Bool-cases, inl, inr, drop,
}
use it_automation_workspace.Sse.{normalize_newlines}

abbrev pub starts_lf : Text → Bool
starts_lf s = starts_with (lf ∷ []) s

-- No "\r" stands before a "\n".
abbrev pub NoCrLf : Text → Type 0
NoCrLf [] = Unit
NoCrLf (c ∷ s) = ((c == cr && starts_lf s) ≡ false) × NoCrLf s

-- No "\r" stands before a "\r\n".
abbrev pub NoCrCrLf : Text → Type 0
NoCrCrLf [] = Unit
NoCrCrLf (c ∷ s) = ((c == cr && starts_with (cr ∷ lf ∷ []) s) ≡ false) × NoCrCrLf s

-- `s` without a "\r" at its very end, if `cut` says so.
abbrev pub trim_cr : Bool → Text → Text
trim_cr cut [] = []
trim_cr cut (c ∷ []) = if c == cr && cut then [] else c ∷ []
trim_cr cut (c ∷ d ∷ s) = c ∷ trim_cr cut (d ∷ s)

starts_lf-normalize_newlines :
    (s : Text) → starts_lf (normalize_newlines s) ≡ (starts_lf s || starts_with (cr ∷ lf ∷ []) s)
unfolding normalize_newlines
starts_lf-normalize_newlines [] = refl
starts_lf-normalize_newlines (c ∷ []) = ground arith
starts_lf-normalize_newlines (c ∷ d ∷ s) = ground (arith, starts_lf-normalize_newlines (d ∷ s))

normalize_newlines_cons :
    (c : ℕ) (s : Text) → (d : ℕ) × (t : Text) × (normalize_newlines (c ∷ s) ≡ d ∷ t)
unfolding normalize_newlines
normalize_newlines_cons c [] = (c, [], ground arith)
normalize_newlines_cons c (d ∷ s) =
    let (e, t, p) = normalize_newlines_cons d s in
    elim (Bool-cases (c == cr && starts_lf (d ∷ s))) [
      | inl gone ↦ (e, t, ground arith)
      | inr kept ↦ (c, normalize_newlines (d ∷ s), ground arith)
    ]

-- Normalising what two chunks make up: a "\r" at the end of the first may go.
pub normalize_newlines-append :
    (p b : Text)
    → normalize_newlines (p ++ b)
      ≡ trim_cr (starts_lf b) (normalize_newlines p) ++ normalize_newlines b
unfolding normalize_newlines
normalize_newlines-append [] b = refl
normalize_newlines-append (c ∷ []) b = ground arith
normalize_newlines-append (c ∷ d ∷ s) b =
    let (e, t, p) = normalize_newlines_cons d s in
    ground (arith, normalize_newlines-append (d ∷ s) b)

pub normalize_newlines_of_NoCrLf : (s : Text) → NoCrLf s → normalize_newlines s ≡ s
unfolding normalize_newlines
normalize_newlines_of_NoCrLf [] h = refl
normalize_newlines_of_NoCrLf (c ∷ s) (h, hs) = ground (arith, normalize_newlines_of_NoCrLf s hs)

pub normalize_newlines-NoCrLf : (s : Text) → NoCrCrLf s → NoCrLf (normalize_newlines s)
unfolding normalize_newlines
normalize_newlines-NoCrLf [] h = tt
normalize_newlines-NoCrLf (c ∷ s) (h, hs) =
    let ih = normalize_newlines-NoCrLf s hs in
    elim (Bool-cases (c == cr && starts_lf s)) [
      | inl gone ↦ rw gone ih
      | inr kept ↦ rw kept (ground (arith, starts_lf-normalize_newlines s), ih)
    ]

pub NoCrLf-drop : (n : ℕ) (s : Text) → NoCrLf s → NoCrLf (drop n s)
NoCrLf-drop zero s h = h
NoCrLf-drop (suc n) [] h = h
NoCrLf-drop (suc n) (c ∷ s) (_, h) = NoCrLf-drop n s h

pub NoCrCrLf-of_append : (a b : Text) → NoCrCrLf (a ++ b) → NoCrCrLf a
NoCrCrLf-of_append [] b h = tt
NoCrCrLf-of_append (c ∷ []) b (h, hs) = (ground arith, tt)
NoCrCrLf-of_append (c ∷ d ∷ []) b (h, hs) = (ground arith, NoCrCrLf-of_append (d ∷ []) b hs)
NoCrCrLf-of_append (c ∷ d ∷ e ∷ s) b (h, hs) = (h, NoCrCrLf-of_append (d ∷ e ∷ s) b hs)
