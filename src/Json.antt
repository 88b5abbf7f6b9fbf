-- ===== src/Json.antt =====
-- Values that `JSON.parse` yields, and the checks of zod's object schemas on them
-- (frontend/src/types/scan.ts). Numbers are the natural ones, which is what the backend sends.
use it_automation_workspace.Common.{ℕ, Bool, Option, none, some, Text, text_eq, if◌then◌else◌}

mutual
  pub data Json : Type 0 where
    null : Json
    bool : Bool → Json
    num : ℕ → Json
    str : Text → Json
    arr : Items → Json
    obj : Fields → Json

  pub data Items : Type 0 where
    nil : Items
    cons : Json → Items → Items

  pub data Fields : Type 0 where
    end : Fields
    field : Text → Json → Fields → Fields

abbrev pub lookup : Text → Fields → Option Json
lookup key end = none
lookup key (field k v fs) = let later = lookup key fs in if text_eq k key then some v else later

-- The value of an object's field; `none` on other values, and where the field is missing.
abbrev pub get : Text → Json → Option Json
get key (obj fs) = lookup key fs
get key v = none

-- `z.number()`, `z.string()` and `z.string().nullable()` at a field
abbrev pub number : Option Json → Option ℕ
number (some (num n)) = some n
number v = none

abbrev pub string : Option Json → Option Text
string (some (str s)) = some s
string v = none

abbrev pub nullable_string : Option Json → Option (Option Text)
nullable_string (some (str s)) = some (some s)
nullable_string (some null) = some none
nullable_string v = none
