-- ===== src/Assets/Debounce.antt =====
-- `useDebouncedValue` (frontend/src/hooks/useAssets.ts), with the time of the clock.
use it_automation_workspace.Common.{
  ℕ, ◌+◌, ◌<◌, leb, Bool, false, Option, none, some, List, [], ◌∷◌, if◌then◌else◌, ◌≡◌, refl, arith,
}

module _ {A : Type 0} (same : A → A → Bool) (delay : ℕ) where
  -- The argument at the last rendering, the state, and the timer: when it fires, and the value that
  -- it sets.
  pub record Debounced : Type 0 where
    pub value : A
    pub debounced_value : A
    pub timer : Option (ℕ × A)

  -- The first rendering, and its effect.
  unfoldable pub first : A → (now : ℕ) → Debounced
  first v now = record { value = v; debounced_value = v; timer = some (now + delay, v) }

  -- A rendering with a value. The effect runs if the value has changed, after its clean-up.
  unfoldable pub render : (now : ℕ) → A → Debounced → Debounced
  render now v d =
      if same v d.value then d else record d { value = v; timer = some (now + delay, v) }

  -- The timer fires once its time has come.
  unfoldable pub advance : (now : ℕ) → Debounced → Debounced
  advance now d = elim d.timer [
    | none ↦ d
    | some (t, v) ↦ if leb t now then record d { debounced_value = v; timer = none } else d
  ]

  -- Values that are typed, each with its time.
  unfoldable pub type_all : List (ℕ × A) → Debounced → Debounced
  unfolding render advance
  type_all [] d = d
  type_all ((now, v) ∷ ks) d = type_all ks (render now v (advance now d))

  -- Each value differs from the one before it, and comes less than the delay after it.
  abbrev pub IsTyping : ℕ → A → List (ℕ × A) → Type 0
  IsTyping t v [] = Unit
  IsTyping t v ((now, w) ∷ ks) = (now < t + delay) × (same w v ≡ false) × IsTyping now w ks

  abbrev pub last_time : ℕ → List (ℕ × A) → ℕ
  last_time t [] = t
  last_time t ((now, v) ∷ ks) = last_time now ks

  abbrev pub last_value : A → List (ℕ × A) → A
  last_value v [] = v
  last_value v ((now, w) ∷ ks) = last_value w ks

  abbrev since : A → A → ℕ → Debounced
  since old v t = record { value = v; debounced_value = old; timer = some (t + delay, v) }

  type_all_lem :
      (old v : A) (t : ℕ) (ks : List (ℕ × A))
      → IsTyping t v ks
      → type_all ks (since old v t) ≡ since old (last_value v ks) (last_time t ks)
  unfolding type_all render advance
  type_all_lem old v t [] h = refl
  type_all_lem old v t ((now, w) ∷ ks) h =
      let still : leb (t + delay) now ≡ false = ground arith in
      rw (still, h.1) (type_all_lem old w now ks h.2)

  render-since :
      (v : A) (t : ℕ) (d : Debounced)
      → same v d.value ≡ false
      → render t v d ≡ since d.debounced_value v t
  unfolding render
  render-since v t d h = rw h refl

  advance-since :
      (old v : A) (t now : ℕ)
      → (advance now (since old v t)).debounced_value ≡ (if leb (t + delay) now then v else old)
  unfolding advance
  advance-since old v t now = ground arith

  -- After a rendering with a new value, while more values are typed, each less than the delay after
  -- the one before and different from it, the debounced value stays as it was; once the delay has
  -- passed since the last of them, it is that one.
  pub advance-type_all :
      (v : A) (t now : ℕ) (ks : List (ℕ × A)) (d : Debounced)
      → same v d.value ≡ false
      → IsTyping t v ks
      → let typed = type_all ks (render t v d) in
        (typed.debounced_value ≡ d.debounced_value)
        × ((advance now typed).debounced_value
            ≡ (if leb (last_time t ks + delay) now then last_value v ks else d.debounced_value))
  advance-type_all v t now ks d new h =
      rw (render-since v t d new, type_all_lem d.debounced_value v t ks h)
        (refl, advance-since d.debounced_value (last_value v ks) (last_time t ks) now)
