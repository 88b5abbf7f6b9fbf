-- ===== src/Simulation.antt =====
-- The simulated scan of frontend/src/hooks/useScanSimulation.ts, driven by its interval.
pub mod Completion
use it_automation_workspace.Common.{
  ℕ, ◌+◌, leb, Bool, true, false, Option, none, some, List, [], ◌∷◌, ◌++◌, Text, if◌then◌else◌,
}
use it_automation_workspace.Scan.Percent.{Rounding, round_percent}

pub data Status : Type 0 where
  idle scanning complete : Status

-- `ScanState`
pub record ScanState : Type 0 where
  pub is_scanning : Bool
  pub progress : ℕ
  pub hosts_scanned : ℕ
  pub hosts_found : ℕ
  pub total_hosts : ℕ
  pub current_host : Text
  pub status : Status

abbrev pub initial_state : ScanState
initial_state = record {
  is_scanning = false;
  progress = 0;
  hosts_scanned = 0;
  hosts_found = 0;
  total_hosts = 0;
  current_host = [];
  status = idle;
}

-- The variables that the callback of an interval closes over.
pub record Interval : Type 0 where
  pub total_hosts : ℕ
  pub scanned : ℕ
  pub found : ℕ

-- The state, the interval in `intervalRef`, and the calls of `onComplete` that have been scheduled.
pub record Simulation : Type 0 where
  pub state : ScanState
  pub interval : Option Interval
  pub completions : List ℕ

abbrev pub new_simulation : Simulation
new_simulation = record { state = initial_state; interval = none; completions = [] }

-- `Math.floor(Math.random() * 100) + 50`, of the random number from 0 to 99.
abbrev pub total_of : (random : ℕ) → ℕ
total_of random = random + 50

-- `startScan`, which clears the old interval.
unfoldable pub start_scan : (random : ℕ) → Simulation → Simulation
start_scan random s = record s {
  state = record {
    is_scanning = true;
    progress = 0;
    hosts_scanned = 0;
    hosts_found = 0;
    total_hosts = total_of random;
    current_host = [];
    status = scanning;
  };
  interval = some (record { total_hosts = total_of random; scanned = 0; found = 0 });
}

-- `cancelScan`, and the clean-up that `startScan` returns, which leaves the state.
unfoldable pub clear_interval : Simulation → Simulation
clear_interval s = record s { interval = none }

unfoldable pub cancel_scan : Simulation → Simulation
unfolding clear_interval
cancel_scan s = record (clear_interval s) {
  state = record s.state { is_scanning = false; status = idle };
}

module _ (rounding : Rounding) where
  abbrev pub scanned_state : Interval → Text → ScanState
  scanned_state i host = record {
    is_scanning = true;
    progress = round_percent rounding i.scanned i.total_hosts;
    hosts_scanned = i.scanned;
    hosts_found = i.found;
    total_hosts = i.total_hosts;
    current_host = host;
    status = scanning;
  }

  -- The callback of the interval, after it has counted one more host.
  unfoldable pub host_scanned : Text → Interval → Simulation → Simulation
  host_scanned host i s =
      if leb i.total_hosts i.scanned
      then record s {
        state = record (scanned_state i host) {
          is_scanning = false;
          progress = 100;
          status = complete;
        };
        interval = none;
        completions = s.completions ++ i.found ∷ [];
      }
      else record s { state = scanned_state i host; interval = some i }

  -- The interval fires: the host, and whether it is found.
  unfoldable pub tick : Text → Bool → Simulation → Simulation
  unfolding host_scanned
  tick host is_found s = elim s.interval [
    | none ↦ s
    | some i ↦
        host_scanned host
          (record i { scanned = i.scanned + 1; found = if is_found then i.found + 1 else i.found })
          s
  ]

  unfoldable pub tick_all : List (Text × Bool) → Simulation → Simulation
  unfolding tick
  tick_all [] s = s
  tick_all ((host, is_found) ∷ ts) s = tick_all ts (tick host is_found s)
