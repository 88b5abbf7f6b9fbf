-- ===== src/Sse/Loop.antt =====
-- The loop over the frames of a buffer (frontend/src/lib/sse.ts): its fuel, and a buffer that grows
-- at its end.
use it_automation_workspace.Common.{
  ℕ, zero, suc, ◌+◌, ◌-◌, ◌≤◌, Bool, none, some, [], ◌∷◌, ◌++◌, Text, index_of, ◌≡◌, refl, arith,
  Option-cases, inl, inr, length, take, drop, length-drop, ap, fun_ext, sym, ◌∙◌,
}
use it_automation_workspace.Sse.{
  Handlers, Outcome, returned, threw, Drained, reading, failed, boundary, process_frame, drain,
}
use it_automation_workspace.Sse.Newlines.{trim_cr}

-- A boundary takes two code units of the buffer.
pub index_of-boundary-le : (s : Text) (n : ℕ) → index_of boundary s ≡ some n → n + 2 ≤ length s
index_of-boundary-le [] n h = ground arith
index_of-boundary-le (c ∷ []) n h = ground arith
index_of-boundary-le (c ∷ d ∷ s) zero h = omega arith
index_of-boundary-le (c ∷ d ∷ s) (suc n) h = ground (arith, index_of-boundary-le (d ∷ s) n)

-- The first boundary stays the first one when the buffer grows, and when a "\r" at its end goes.
pub index_of-append :
    (cut : Bool) (s b : Text) (n : ℕ)
    → index_of boundary s ≡ some n
    → index_of boundary (trim_cr cut s ++ b) ≡ some n
index_of-append cut [] b n h = ground arith
index_of-append cut (c ∷ []) b n h = ground arith
index_of-append cut (c ∷ d ∷ []) b zero h = ground arith
index_of-append cut (c ∷ d ∷ []) b (suc n) h = ground arith
index_of-append cut (c ∷ d ∷ e ∷ s) b zero h = ground arith
index_of-append cut (c ∷ d ∷ e ∷ s) b (suc n) h =
    ground (arith, index_of-append cut (d ∷ e ∷ s) b n)

take-append_of_boundary :
    (cut : Bool) (s b : Text) (n : ℕ)
    → index_of boundary s ≡ some n
    → take n (trim_cr cut s ++ b) ≡ take n s
take-append_of_boundary cut s b zero h = refl
take-append_of_boundary cut [] b (suc n) h = ground arith
take-append_of_boundary cut (c ∷ []) b (suc n) h = ground arith
take-append_of_boundary cut (c ∷ d ∷ s) b (suc n) h =
    ground (arith, take-append_of_boundary cut (d ∷ s) b n)

drop-append_of_suc :
    (cut : Bool) (s b : Text) (n : ℕ)
    → index_of boundary s ≡ some n
    → drop (suc (suc n)) (trim_cr cut s ++ b) ≡ trim_cr cut (drop (suc (suc n)) s) ++ b
drop-append_of_suc cut [] b n h = ground arith
drop-append_of_suc cut (c ∷ []) b n h = ground arith
drop-append_of_suc cut (c ∷ d ∷ []) b zero h = ground arith
drop-append_of_suc cut (c ∷ d ∷ e ∷ s) b zero h = refl
drop-append_of_suc cut (c ∷ d ∷ s) b (suc n) h = drop-append_of_suc cut (d ∷ s) b n (ground arith)

drop-append_of_boundary :
    (cut : Bool) (s b : Text) (n : ℕ)
    → index_of boundary s ≡ some n
    → drop (n + 2) (trim_cr cut s ++ b) ≡ trim_cr cut (drop (n + 2) s) ++ b
drop-append_of_boundary cut s b n h =
    let e : n + 2 ≡ suc (suc n) = omega arith in rw e (drop-append_of_suc cut s b n h)

module _ {S : Type 0} (h : Handlers S) where
  abbrev pub and_then : Drained S → (S → Text → Drained S) → Drained S
  and_then (reading s buffer) k = k s buffer
  and_then (failed s) k = failed s

  abbrev pub drain_all : S → Text → Drained S
  drain_all s buffer = drain h (length buffer) s buffer

  abbrev pub after_handler : Outcome S → (S → Drained S) → Drained S
  after_handler (returned s) k = k s
  after_handler (threw s) k = failed s

  pub drain-none :
      (n : ℕ) (s : S) (buffer : Text)
      → index_of boundary buffer ≡ none
      → drain h n s buffer ≡ reading s buffer
  unfolding drain
  drain-none zero s buffer e = refl
  drain-none (suc n) s buffer e = rw (e, drain) refl

  pub drain-some :
      (n : ℕ) (s : S) (buffer : Text) {at : ℕ}
      → index_of boundary buffer ≡ some at
      → drain h (suc n) s buffer
        ≡ after_handler
            (process_frame h (take at buffer) s)
            (λ s'. drain h n s' (drop (at + 2) buffer))
  unfolding drain
  drain-some n s buffer {at} e = rw (e, drain) (same (process_frame h (take at buffer) s))
    where
      same :
          (o : Outcome S)
          → (elim o [ returned s' ↦ drain h n s' (drop (at + 2) buffer) | threw s' ↦ failed s' ])
            ≡ after_handler o (λ s'. drain h n s' (drop (at + 2) buffer))
      same (returned s') = refl
      same (threw s') = refl

  -- Any two amounts of fuel that cover the buffer give the same result.
  pub drain-fuel :
      (n m : ℕ) (s : S) (buffer : Text)
      → length buffer ≤ n
      → length buffer ≤ m
      → drain h n s buffer ≡ drain h m s buffer
  drain-fuel zero m s [] p q = rw (drain-none zero s [] refl, drain-none m s [] refl)
  drain-fuel zero m s (c ∷ buffer) p q = absurd (omega arith)
  drain-fuel (suc n) zero s [] p q = rw (drain-none (suc n) s [] refl, drain-none zero s [] refl)
  drain-fuel (suc n) zero s (c ∷ buffer) p q = absurd (omega arith)
  drain-fuel (suc n) (suc m) s buffer p q = elim (Option-cases (index_of boundary buffer)) [
    | inl e ↦ rw (drain-none (suc n) s buffer e, drain-none (suc m) s buffer e)
    | inr (at, e) ↦
        let shorter : length (drop (at + 2) buffer) + 2 ≤ length buffer =
          omega (arith, length-drop (at + 2) buffer, index_of-boundary-le buffer at e) in
        rw (drain-some n s buffer e, drain-some m s buffer e)
          (ap (after_handler (process_frame h (take at buffer) s))
            (fun_ext (λ s'. drain-fuel n m s' (drop (at + 2) buffer) (omega arith) (omega arith))))
  ]

  and_then-after_handler :
      (o : Outcome S) (f : S → Drained S) (k : S → Text → Drained S)
      → and_then (after_handler o f) k ≡ after_handler o (λ s. and_then (f s) k)
  and_then-after_handler (returned s) f k = refl
  and_then-after_handler (threw s) f k = refl

  -- A buffer that grows: the frames that are complete now, and then the rest with what is new.
  pub drain-append :
      (cut : Bool) (n m : ℕ) (s : S) (x b : Text)
      → length x ≤ n
      → length (trim_cr cut x ++ b) ≤ m
      → drain h m s (trim_cr cut x ++ b)
        ≡ and_then (drain h n s x) (λ s' r. drain_all s' (trim_cr cut r ++ b))
  drain-append cut zero m s [] b p q =
      rw (drain-none zero s [] refl) (drain-fuel m (length b) s b q (omega arith))
  drain-append cut zero m s (c ∷ x) b p q = absurd (omega arith)
  drain-append cut (suc n) m s x b p q = elim (Option-cases (index_of boundary x)) [
    | inl e ↦ rw (drain-none (suc n) s x e) (drain-fuel m _ s (trim_cr cut x ++ b) q (omega arith))
    | inr (at, e) ↦
        let grown = index_of-append cut x b at e in
        let shorter = index_of-boundary-le (trim_cr cut x ++ b) at grown in
        let m' : m ≡ suc (m - 1) = omega arith in
        let rest = drop-append_of_boundary cut x b at e in
        let left : length (trim_cr cut (drop (at + 2) x) ++ b) ≤ m - 1 =
          rw (← rest) (omega (arith, length-drop (at + 2) (trim_cr cut x ++ b))) in
        let left' : length (drop (at + 2) x) ≤ n =
          omega (arith, length-drop (at + 2) x, index_of-boundary-le x at e) in
        rw m' (
          drain-some (m - 1) s (trim_cr cut x ++ b) grown
          ∙ rw (drain-some n s x e, take-append_of_boundary cut x b at e, rest)
              (ap (after_handler (process_frame h (take at x) s))
                  (fun_ext (λ s'. drain-append cut n (m - 1) s' (drop (at + 2) x) b left' left))
                ∙ sym (and_then-after_handler (process_frame h (take at x) s) _ _)))
  ]
