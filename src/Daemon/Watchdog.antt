-- ===== src/Daemon/Watchdog.antt =====
-- pkg/daemon/watchdog.go: the watchdog, which restarts a component after three failures in a row. A
-- health check acts on a world `W`. Only one goroutine runs the checks, so a count is read as it was
-- just written. The ticks of the loop are its rounds.
pub mod Rounds
mod Tests
use gonesis.Prelude.{
  ℕ, zero, suc, ◌+◌, Text, Bool, true, false, Option, none, some, List, [], ◌∷◌, if◌then◌else◌, leb,
}
use gonesis.Dict.{Dict, lookup, insert}

-- `HealthCheck`; no error is `none`.
pub record HealthCheck (W : Type 0) : Type 0 where
  pub name : Text
  pub check : W → Option Text × W
  pub restart : W → Option Text × W

abbrev pub Failures : Type 0
Failures = Dict ℕ

-- failures[name], which is zero for a missing key
pub count_of : Text → Failures → ℕ
count_of name failures = elim (lookup name failures) [ none ↦ 0 | some n ↦ n ]

module _ {W : Type 0} where
  pub after_restart : Text → Failures → Option Text × W → Failures × W
  after_restart name failures (none, w) = (insert name 0 failures, w)
  after_restart name failures (some e, w) = (failures, w)

  -- The failure is counted, and the third and each later one restarts the component.
  pub after_check : HealthCheck W → Failures → Option Text × W → Failures × W
  unfolding count_of
  after_check c failures (none, w) = (insert c.name 0 failures, w)
  after_check c failures (some e, w) =
      let count = count_of c.name failures + 1 in
      let counted = insert c.name count failures in
      if leb 3 count then after_restart c.name counted (c.restart w) else (counted, w)

  -- `runChecks`
  pub run_checks : List (HealthCheck W) → Failures → W → Failures × W
  run_checks [] failures w = (failures, w)
  run_checks (c ∷ checks) failures w =
      let (failures', w') = after_check c failures (c.check w) in run_checks checks failures' w'

  -- The rounds of `Run`.
  pub run_rounds : ℕ → List (HealthCheck W) → Failures → W → Failures × W
  run_rounds zero checks failures w = (failures, w)
  run_rounds (suc n) checks failures w =
      let (failures', w') = run_rounds n checks failures w in run_checks checks failures' w'
