-- ===== src/Daemon/Watchdog/Tests.antt =====
-- Three components, one of which never passes its check.
use gonesis.Prelude.{
  ℕ, suc, ◌+◌, ◌%◌, ◌/◌, codes, none, some, [], ◌∷◌, ◌++◌, ◌≡◌, refl, arith, text_eq,
}
use gonesis.Dict.{lookup}
use gonesis.Daemon.Watchdog.{HealthCheck, Failures, count_of, run_rounds}
use gonesis.Daemon.Watchdog.Rounds.{run_rounds-restarts}

-- The world counts the restarts of the broken component, and the checks of another.
abbrev World : Type 0
World = ℕ × ℕ

abbrev broken : HealthCheck World
broken = record {
  name = codes "socket";
  check = λ w. (some (codes "refused"), w);
  restart = λ w. (none, (suc (w.0), w.1));
}

abbrev telegram : HealthCheck World
telegram = record {
  name = codes "telegram";
  check = λ w. (none, (w.0, suc (w.1)));
  restart = λ w. (none, w);
}

abbrev cron : HealthCheck World
cron = record {
  name = codes "cron";
  check = λ w. (some (codes "stopped"), w);
  restart = λ w. (some (codes "no directory"), w);
}

abbrev failures : Failures
failures = (codes "socket", 2) ∷ (codes "cron", 1) ∷ []

two_failures : count_of (codes "socket") failures ≡ 2
unfolding count_of lookup text_eq
two_failures = refl

run_rounds-restarts_example :
    let (f, w) = run_rounds 5 ((telegram ∷ []) ++ broken ∷ cron ∷ []) failures (0, 0) in
    (count_of (codes "socket") f ≡ (2 + 5) % 3) × (w.0 ≡ 0 + (2 + 5) / 3)
run_rounds-restarts_example =
    run_rounds-restarts broken (λ w. w.0) (λ w. (codes "refused", refl)) (λ w. refl) (λ w. refl)
      (λ w. refl) (telegram ∷ []) (cron ∷ []) 5 2 failures (0, 0)
      ((λ e. cc, (λ w. refl), (λ w. refl)), tt) ((λ e. cc, (λ w. refl), (λ w. refl)), tt)
      (omega arith) two_failures
