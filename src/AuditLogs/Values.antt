-- ===== src/AuditLogs/Values.antt =====
-- `String(value)` of what `JSON.parse` yields (frontend/src/hooks/useAuditLogs.ts).
use it_automation_workspace.Common.{
  ℕ, zero, suc, ◌+◌, ◌/◌, ◌%◌, ltb, true, false, [], ◌∷◌, ◌++◌, Text, codes, if◌then◌else◌,
}
use it_automation_workspace.Json.{Json, null, bool, num, str, arr, obj, Items, nil, cons}

-- The decimal digits of a number; it has fewer of them than its own amount and one.
abbrev decimal : (fuel : ℕ) → ℕ → Text
decimal zero n = []
decimal (suc fuel) n =
    let higher = decimal fuel (n / 10) in
    if ltb n 10 then (48 + n) ∷ [] else higher ++ (48 + n % 10) ∷ []

-- In an array, `null` is empty, and commas stand between the items.
abbrev null_is_empty : Json → Text → Text
null_is_empty null text = []
null_is_empty v text = text

abbrev after_comma : Items → Text → Text
after_comma nil text = []
after_comma (cons v vs) text = 44 ∷ text

abbrev mutual
  pub json_text : Json → Text
  json_text null = codes "null"
  json_text (bool true) = codes "true"
  json_text (bool false) = codes "false"
  json_text (num n) = decimal (suc n) n
  json_text (str s) = s
  json_text (arr vs) = items_text vs
  json_text (obj fs) = codes "[object Object]"

  pub items_text : Items → Text
  items_text nil = []
  items_text (cons v vs) = null_is_empty v (json_text v) ++ after_comma vs (items_text vs)
