-- ===== src/Queries.antt =====
-- When a query is tried again: `retry` of the query client in frontend/src/main.tsx.
use it_automation_workspace.Common.{
  ℕ, suc, ◌+◌, Bool, ◌&&◌, ◌||◌, not, List, [], ◌∷◌, ◌++◌, Text, codes, any, ltb, ◌==◌,
  if◌then◌else◌, ◌≡◌, refl, arith, Bool-cases, inl, inr,
}

-- What a query is refused with: an `Error` with its message, or another value.
pub data Thrown : Type 0 where
  error : (message : Text) → Thrown
  other : Thrown

-- `error.message.includes("4")`
abbrev pub includes_four : Text → Bool
includes_four = any (λ c. c == b'4')

unfoldable pub retry : (failure_count : ℕ) → Thrown → Bool
retry failure_count (error message) = not (includes_four message) && ltb failure_count 3
retry failure_count other = ltb failure_count 3

-- How often a query is sent, if it fails as listed and then succeeds.
unfoldable pub attempts : (failure_count : ℕ) → List Thrown → ℕ
attempts failure_count [] = 1
attempts failure_count (e ∷ es) =
    let again = attempts (failure_count + 1) es in if retry failure_count e then suc again else 1

-- The message of axios for an answer with a status of three digits.
abbrev pub status_message : (a b c : ℕ) → Thrown
status_message a b c =
    error (codes "Request failed with status code " ++ (48 + a) ∷ (48 + b) ∷ (48 + c) ∷ [])

abbrev pub has_four : (a b c : ℕ) → Bool
has_four a b c = a == 4 || b == 4 || c == 4

retry-status_message :
    (n a b c : ℕ) → retry n (status_message a b c) ≡ (not (has_four a b c) && ltb n 3)
unfolding retry
retry-status_message n a b c = ground arith

-- A query that is answered with the same status again and again is sent four times, or once if a
-- digit of the status is a 4: so a 4xx is not tried again, and neither is a 504, a fault of the
-- server.
pub attempts-status_message :
    (a b c : ℕ) (later : List Thrown)
    → let e = status_message a b c in
      attempts 0 (e ∷ e ∷ e ∷ e ∷ later) ≡ (if has_four a b c then 1 else 4)
unfolding attempts
attempts-status_message a b c later = elim (Bool-cases (has_four a b c)) [
  | inl f ↦ rw (retry-status_message 0 a b c, f) refl
  | inr f ↦
      rw
        (
          retry-status_message 0 a b c,
          retry-status_message 1 a b c,
          retry-status_message 2 a b c,
          retry-status_message 3 a b c,
          f,
        )
        refl
]
