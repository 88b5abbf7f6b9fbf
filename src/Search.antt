-- ===== src/Search.antt =====
-- The search field, frontend/src/components/forms/SearchInput.tsx, under a parent that keeps in its
-- state what `onChange` gives it.
use it_automation_workspace.Common.{
  ℕ, ◌+◌, ◌≤◌, ◌<◌, leb, Bool, true, false, Option, none, some, List, [], ◌∷◌, Text, text_eq,
  if◌then◌else◌, ◌≡◌, refl, arith,
}

-- The parent's `value`, `localValue`, the timer with the text that it hands on, and the calls of
-- `onChange`, latest first.
pub record SearchInput : Type 0 where
  pub value : Text
  pub local_value : Text
  pub timeout : Option (ℕ × Text)
  pub calls : List Text

-- `onChange(v)`: the parent renders with `v`, and the effect on `value` runs if that has changed.
unfoldable pub on_change : Text → SearchInput → SearchInput
on_change v s = record s {
  value = v;
  local_value = if text_eq v s.value then s.local_value else v;
  calls = v ∷ s.calls;
}

either_same : (b : Bool) (v : Text) → (if b then v else v) ≡ v
either_same b v = ground arith

nil_or : (v : Text) → (if text_eq v [] then [] else v) ≡ v
nil_or [] = refl
nil_or (c ∷ cs) = refl

module _ (debounce_ms : ℕ) where
  unfoldable pub handle_change : (now : ℕ) → Text → SearchInput → SearchInput
  handle_change now v s = record s { local_value = v; timeout = some (now + debounce_ms, v) }

  unfoldable pub handle_clear : SearchInput → SearchInput
  unfolding on_change
  handle_clear s = on_change [] (record s { local_value = [] })

  -- The timer fires once its time has come.
  unfoldable pub advance : (now : ℕ) → SearchInput → SearchInput
  unfolding on_change
  advance now s = elim s.timeout [
    | none ↦ s
    | some (t, v) ↦ if leb t now then on_change v (record s { timeout = none }) else s
  ]

  -- Texts that are typed, each with its time.
  unfoldable pub type_all : List (ℕ × Text) → SearchInput → SearchInput
  unfolding handle_change advance
  type_all [] s = s
  type_all ((now, v) ∷ ks) s = type_all ks (handle_change now v (advance now s))

  -- Each text comes less than the delay after the one before it.
  abbrev pub IsQuick : ℕ → List (ℕ × Text) → Type 0
  IsQuick t [] = Unit
  IsQuick t ((now, v) ∷ ks) = (now < t + debounce_ms) × IsQuick now ks

  abbrev pub last_time : ℕ → List (ℕ × Text) → ℕ
  last_time t [] = t
  last_time t ((now, v) ∷ ks) = last_time now ks

  abbrev pub last_text : Text → List (ℕ × Text) → Text
  last_text v [] = v
  last_text v ((now, w) ∷ ks) = last_text w ks

  typing : Text → ℕ → SearchInput → SearchInput
  typing v t s = record s { local_value = v; timeout = some (t + debounce_ms, v) }

  type_all_lem :
      (v : Text) (t : ℕ) (ks : List (ℕ × Text)) (s : SearchInput)
      → IsQuick t ks
      → type_all ks (typing v t s) ≡ typing (last_text v ks) (last_time t ks) s
  unfolding type_all handle_change advance typing
  type_all_lem v t [] s h = refl
  type_all_lem v t ((now, w) ∷ ks) s h =
      let still : leb (t + debounce_ms) now ≡ false = ground arith in
      rw still (type_all_lem w now ks s h.1)

  -- While texts are typed, each less than the delay after the one before, the parent hears nothing;
  -- once the delay has passed since the last of them, `onChange` has been called once, with the last,
  -- which the parent and the field then have.
  pub advance-type_all :
      (v : Text) (t now : ℕ) (ks : List (ℕ × Text)) (s : SearchInput)
      → IsQuick t ks
      → last_time t ks + debounce_ms ≤ now
      → let typed = type_all ks (handle_change t v s) in
        let later = advance now typed in
        (typed.calls ≡ s.calls)
        × (later.calls ≡ last_text v ks ∷ s.calls)
        × (later.value ≡ last_text v ks)
        × (later.local_value ≡ last_text v ks)
        × (later.timeout ≡ none)
  unfolding handle_change advance typing
  advance-type_all v t now ks s h k =
      let due : leb (last_time t ks + debounce_ms) now ≡ true = ground arith in
      rw (type_all_lem v t ks s h, due)
        (refl, refl, refl, either_same (text_eq (last_text v ks) s.value) (last_text v ks), refl)

  -- Clearing the field does not stop the timer: the text typed less than the delay before comes back,
  -- to the parent and to the field.
  pub handle_clear-advance :
      (v : Text) (t cleared now : ℕ) (s : SearchInput)
      → cleared < t + debounce_ms
      → t + debounce_ms ≤ now
      → let typed = handle_change t v s in
        let empty = handle_clear (advance cleared typed) in
        let later = advance now empty in
        (empty.value ≡ [])
        × (empty.local_value ≡ [])
        × (later.value ≡ v)
        × (later.local_value ≡ v)
        × (later.calls ≡ v ∷ [] ∷ s.calls)
  unfolding handle_change handle_clear advance
  handle_clear-advance v t cleared now s h k =
      let still : leb (t + debounce_ms) cleared ≡ false = ground arith in
      let due : leb (t + debounce_ms) now ≡ true = ground arith in
      rw (still, due, either_same (text_eq [] s.value) []) (refl, refl, refl, nil_or v, refl)
