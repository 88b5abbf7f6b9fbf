-- ===== src/Scan/Percent.antt =====
-- `Math.round((a / b) * 100)` over the numbers of JavaScript, of which the model takes the laws that
-- IEEE 754 gives to a correctly rounded operation (frontend/src/hooks/useScanStream.ts).
use it_automation_workspace.Common.{ℕ, ◌≤◌, ◌<◌, ◌≡◌, ◌∙◌, ap, arith}

pub record Rounding : Type 1 where
  -- The floating point numbers that are not negative, with their order.
  pub Float : Type 0
  pub LessEq : Float → Float → Type 0
  pub divide : ℕ → ℕ → Float
  pub times_hundred : Float → Float
  pub round : Float → ℕ
  -- Each operation is monotone.
  pub divide_mono : (a b n : ℕ) → a ≤ b → LessEq (divide a n) (divide b n)
  pub times_hundred_mono : (x y : Float) → LessEq x y → LessEq (times_hundred x) (times_hundred y)
  pub round_mono : (x y : Float) → LessEq x y → round x ≤ round y
  -- `n / n` is 1, and 1 * 100 is the integer 100.
  pub divide_self : (a b : ℕ) → 0 < a → 0 < b → divide a a ≡ divide b b
  pub round_hundred : round (times_hundred (divide 1 1)) ≡ 100

abbrev pub round_percent : (r : Rounding) → ℕ → ℕ → ℕ
round_percent r a b = r.round (r.times_hundred (r.divide a b))

-- A part of the whole is at most 100 percent of it.
pub round_percent-le : (r : Rounding) (a b : ℕ) → a ≤ b → 0 < b → round_percent r a b ≤ 100
round_percent-le r a b h pos =
    let whole : round_percent r b b ≡ 100 =
      ap (λ x. r.round (r.times_hundred x)) (r.divide_self b 1 pos (omega arith))
      ∙ r.round_hundred in
    let part : round_percent r a b ≤ round_percent r b b =
      r.round_mono _ _ (r.times_hundred_mono _ _ (r.divide_mono a b b h)) in
    omega arith
