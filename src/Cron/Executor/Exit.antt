-- ===== src/Cron/Executor/Exit.antt =====
-- The exit code of a manual run, and what it reports.
use gonesis.Prelude.{
  Text, Bool, true, false, Result, ok, err, ℤ, ◌≡◌, ◌↔◌, inl, inr, refl, arith, Bool-cases,
}
use gonesis.Cron.{CronJob}
use gonesis.Cron.Executor.{
  Deps, Status, success, error, timeout, exit_code, is_positive, deadline, status_of, message_of,
  report_of, run_job, test_timeout, execute_test, Report,
}

abbrev pub IsErr : Result Text Text → Type 0
IsErr r = (e : Text) × (r ≡ err e)

abbrev pub IsOk : Result Text Text → Type 0
IsOk r = (content : Text) × (r ≡ ok content)

module _ {W : Type 0} (deps : Deps W) (results : Text) (job : CronJob) where
  -- The provider's answer to a run under a timeout
  abbrev pub answer_of : ℤ → W → Result Text Text × Bool
  answer_of limit w = (deps.generate (deadline limit) (job.prompt) w).0

  report_status :
      (status : Status) (message : Text)
      → (report_of deps results job status message).status ≡ status
  report_status success message = refl
  report_status error message = refl
  report_status timeout message = refl

  success_iff :
      (limit : ℤ) (answer : Result Text Text × Bool)
      → is_positive limit ≡ true
      → (exit_code (status_of deps results job limit answer) ≡ 0) ↔ IsOk (answer.0)
  unfolding status_of
  success_iff limit (ok content, exceeded) h = (λ e. (content, refl), λ e. refl)
  success_iff limit (err cause, true) h = ground (arith, h)
  success_iff limit (err cause, false) h = ground (arith, h)

  timeout_iff :
      (limit : ℤ) (answer : Result Text Text × Bool)
      → is_positive limit ≡ true
      → (exit_code (status_of deps results job limit answer) ≡ 124)
        ↔ (IsErr (answer.0) × (answer.1 ≡ true))
  unfolding status_of
  timeout_iff limit (ok content, exceeded) h = ground (arith, h)
  timeout_iff limit (err cause, true) h = (λ e. ((cause, refl), refl), λ e. rw h)
  timeout_iff limit (err cause, false) h = ground (arith, h)

  positive_test_timeout : (option : ℤ) → is_positive (test_timeout deps results job option) ≡ true
  unfolding test_timeout
  positive_test_timeout option = elim (Bool-cases (is_positive option)) [
    | inl e ↦ rw e e
    | inr e ↦ elim (Bool-cases (is_positive (job.timeout))) [
      | inl f ↦ rw (e, f) f
      | inr f ↦ rw (e, f)
    ]
  ]

  abbrev pub Tells : ℤ → Report → Result Text Text × Bool → Type 0
  Tells limit report answer =
      (is_positive limit ≡ true)
      × ((exit_code (report.status) ≡ 0) ↔ IsOk (answer.0))
      × ((exit_code (report.status) ≡ 124) ↔ (IsErr (answer.0) × (answer.1 ≡ true)))
      × (report
          ≡ report_of deps results job (report.status) (message_of deps results job limit answer))

  -- Every manual run has a deadline, and its exit code tells the outcomes apart: 0 exactly where the
  -- provider answered, 124 exactly where it failed with the deadline exceeded. It reports one text,
  -- on stdout with the code 0 and on stderr with any other.
  pub execute_test-exit_code :
      (option : ℤ) (w : W)
      → Tells
          (test_timeout deps results job option)
          ((execute_test deps results job option w).0)
          (answer_of (test_timeout deps results job option) w)
  unfolding execute_test run_job
  execute_test-exit_code option w =
      let limit = test_timeout deps results job option in
      let positive = positive_test_timeout option in
      let answer = answer_of limit w in
      rw
        (report_status (status_of deps results job limit answer)
          (message_of deps results job limit answer))
        (positive, success_iff limit answer positive, timeout_iff limit answer positive, refl)
