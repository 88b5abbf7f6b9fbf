-- ===== src/Simulation/Completion.antt =====
-- The ticks of a simulated scan, from its start on (frontend/src/hooks/useScanSimulation.ts).
use it_automation_workspace.Common.{
  ℕ, suc, ◌+◌, ◌≤◌, ◌<◌, Bool, false, none, some, List, [], ◌∷◌, ◌++◌, Text, length, if◌then◌else◌,
  ◌≡◌, refl, sym, ap, subst, ◌∙◌, arith,
}
use it_automation_workspace.Scan.Percent.{Rounding, round_percent-le}
use it_automation_workspace.Simulation.{
  Simulation, complete, scanning, start_scan, host_scanned, tick, tick_all, total_of,
}

abbrev pub count_found : List (Text × Bool) → ℕ
count_found [] = 0
count_found ((host, is_found) ∷ ts) =
    let rest = count_found ts in if is_found then suc rest else rest

-- A simulation that has ended: all hosts are scanned, and the callback is scheduled once.
pub record IsComplete (total found : ℕ) (s s' : Simulation) : Type 0 where
  pub status : s'.state.status ≡ complete
  pub is_scanning : s'.state.is_scanning ≡ false
  pub progress : s'.state.progress ≡ 100
  pub hosts_scanned : s'.state.hosts_scanned ≡ total
  pub hosts_found : s'.state.hosts_found ≡ found
  pub interval : s'.interval ≡ none
  pub completions : s'.completions ≡ s.completions ++ found ∷ []

-- A simulation on its way.
pub record IsRunning (total scanned found : ℕ) (s s' : Simulation) : Type 0 where
  pub status : s'.state.status ≡ scanning
  pub interval :
      s'.interval ≡ some (record { total_hosts = total; scanned = scanned; found = found })
  pub progress : s'.state.progress ≤ 100
  pub completions : s'.completions ≡ s.completions

module _ (rounding : Rounding) where
  tick-IsRunning :
      (total scanned found : ℕ) (host : Text) (b : Bool) (s₀ s : Simulation)
      → IsRunning total scanned found s₀ s
      → scanned + 1 < total
      → IsRunning total (scanned + 1) (if b then found + 1 else found) s₀ (tick rounding host b s)
  unfolding tick host_scanned
  tick-IsRunning total scanned found host b s₀ s r h =
      ground (arith, round_percent-le rounding (scanned + 1) total)

  tick-IsComplete :
      (total scanned found : ℕ) (host : Text) (b : Bool) (s₀ s : Simulation)
      → IsRunning total scanned found s₀ s
      → scanned + 1 ≡ total
      → IsComplete total (if b then found + 1 else found) s₀ (tick rounding host b s)
  unfolding tick host_scanned
  tick-IsComplete total scanned found host b s₀ s r h = ground arith

  run-IsRunning :
      (total scanned found : ℕ) (ts : List (Text × Bool)) (s₀ s : Simulation)
      → IsRunning total scanned found s₀ s
      → scanned + length ts < total
      → IsRunning total (scanned + length ts) (found + count_found ts) s₀ (tick_all rounding ts s)
  unfolding tick_all
  run-IsRunning total scanned found [] s₀ s r h = ground (arith, r)
  run-IsRunning total scanned found ((host, b) ∷ ts) s₀ s r h =
      let next =
        run-IsRunning total (scanned + 1) (if b then found + 1 else found) ts s₀
          (tick rounding host b s)
          (tick-IsRunning total scanned found host b s₀ s r (omega (arith, h)))
          (omega (arith, h)) in
      ground (arith, next)

  tick_all_of_none :
      (ts : List (Text × Bool)) (s : Simulation) → s.interval ≡ none → tick_all rounding ts s ≡ s
  unfolding tick_all tick
  tick_all_of_none [] s h = refl
  tick_all_of_none ((host, b) ∷ ts) s h =
      let same : tick rounding host b s ≡ s = ground arith in
      ap (tick_all rounding ts) same ∙ tick_all_of_none ts s h

  run-IsComplete :
      (total scanned found : ℕ) (host : Text) (b : Bool) (ts more : List (Text × Bool))
      (s₀ s : Simulation)
      → IsRunning total scanned found s₀ s
      → scanned + length ((host, b) ∷ ts) ≡ total
      → IsComplete total
          (found + count_found ((host, b) ∷ ts))
          s₀
          (tick_all rounding ((host, b) ∷ ts ++ more) s)
  unfolding tick_all
  run-IsComplete total scanned found host b [] more s₀ s r h =
      let last = tick-IsComplete total scanned found host b s₀ s r (omega (arith, h)) in
      subst (IsComplete total (found + count_found ((host, b) ∷ [])) s₀)
        (sym (tick_all_of_none more (tick rounding host b s) last.interval)) (ground (arith, last))
  run-IsComplete total scanned found host b ((host', b') ∷ ts) more s₀ s r h =
      let next =
        run-IsComplete total (scanned + 1) (if b then found + 1 else found) host' b' ts more s₀
          (tick rounding host b s)
          (tick-IsRunning total scanned found host b s₀ s r (omega (arith, h)))
          (omega (arith, h)) in
      ground (arith, next)

  -- A simulated scan, whatever was before it, runs while fewer ticks have passed than it has hosts,
  -- with a progress of at most 100 percent.
  pub tick_all-IsRunning :
      (random : ℕ) (ts : List (Text × Bool)) (s : Simulation)
      → length ts < total_of random
      → IsRunning
          (total_of random)
          (length ts)
          (count_found ts)
          s
          (tick_all rounding ts (start_scan random s))
  unfolding start_scan
  tick_all-IsRunning random ts s h =
      let run =
        run-IsRunning (total_of random) 0 0 ts s (start_scan random s) (ground arith)
          (omega (arith, h)) in
      ground (arith, run)

  -- With the tick of its last host the scan is complete, with the number of hosts found, and calls
  -- `onComplete` once; ticks after that change nothing.
  pub tick_all-IsComplete :
      (random : ℕ) (ts more : List (Text × Bool)) (s : Simulation)
      → length ts ≡ total_of random
      → IsComplete
          (total_of random)
          (count_found ts)
          s
          (tick_all rounding (ts ++ more) (start_scan random s))
  unfolding start_scan
  tick_all-IsComplete random [] more s h = absurd (omega (arith, h))
  tick_all-IsComplete random ((host, b) ∷ ts) more s h =
      let run =
        run-IsComplete (total_of random) 0 0 host b ts more s (start_scan random s) (ground arith)
          (omega (arith, h)) in
      ground (arith, run)
