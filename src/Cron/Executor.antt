-- ===== src/Cron/Executor.antt =====
-- pkg/cron/executor.go: a run of a job. Durations are nanoseconds. `Deps` is what the run depends on:
-- the provider under a deadline, the clock and the file system, as functions on the world `W`.
pub mod Exit
use gonesis.Prelude.{
  ℕ, zero, suc, ◌+◌, Text, codes, Bool, true, false, Option, none, some, Option-cases, List, [],
  ◌∷◌, ◌++◌, if◌then◌else◌, Result, ok, err, Result-cases, ℤ, pos, negsuc, ◌≡◌, ◌≢◌, ◌⊎◌, ◌↔◌, inl,
  inr, refl, arith, Bool-cases, ◌&&◌,
}
use gonesis.Filepath.{join_path}
use gonesis.Cron.{CronJob}

pub data Source : Type 0 where
  scheduled : Source
  manual : Source

pub data Status : Type 0 where
  success : Status
  error : Status
  timeout : Status

abbrev pub exit_code : Status → ℕ
exit_code success = 0
exit_code error = 1
exit_code timeout = 124

abbrev pub test_default_timeout : ℤ
test_default_timeout = pos 300000000000

-- Provider.Generate of one user message, with the deadline where there is one: its answer or its
-- error, and whether the context's deadline is exceeded. `stamp` is the time in the file name, and
-- `frontmatter` the lines between the fences.
pub record Deps (W : Type 0) : Type 0 where
  pub generate : Option ℕ → Text → W → (Result Text Text × Bool) × W
  pub stamp : W → Text
  pub frontmatter : Source → Status → W → W → Text
  pub timeout_message : ℤ → Text
  pub mkdir_all : Text → W → Option Text × W
  pub write_file : Text → Text → W → Option Text × W

abbrev pub is_positive : ℤ → Bool
is_positive (pos zero) = false
is_positive (pos (suc n)) = true
is_positive (negsuc n) = false

-- The deadline that runJob puts on the context
abbrev pub deadline : ℤ → Option ℕ
deadline (pos zero) = none
deadline (pos (suc n)) = some (suc n)
deadline (negsuc n) = none

-- What a run reports to its caller: the exit code, and the texts given to onStdout and onStderr.
pub record Report : Type 0 where
  pub status : Status
  pub stdout : List Text
  pub stderr : List Text

module _ {W : Type 0} (deps : Deps W) (results : Text) (job : CronJob) where
  -- writeResult: the file's name, which is empty where it is not written.
  unfoldable pub write_result : Source → Status → W → Text → W → Text × W
  unfolding join_path
  write_result source status start content w =
      let name = job.name ++ (45 ∷ deps.stamp w ++ codes ".md") in
      let (e, w₁) = deps.mkdir_all results w in
      elim e [
        | some cause ↦ ([], w₁)
        | none ↦
            let text =
              codes "---\n"
              ++ (deps.frontmatter source status start w ++ (codes "---\n" ++ content)) in
            let (f, w₂) = deps.write_file (join_path results name) text w₁ in
            elim f [ some cause ↦ ([], w₂) | none ↦ (name, w₂) ]
      ]

  -- Which status an answer of the provider has under a timeout
  unfoldable pub status_of : ℤ → Result Text Text × Bool → Status
  status_of limit (ok content, exceeded) = success
  status_of limit (err e, exceeded) = if is_positive limit && exceeded then timeout else error

  unfoldable pub message_of : ℤ → Result Text Text × Bool → Text
  message_of limit (ok content, exceeded) = content
  message_of limit (err e, exceeded) =
      if is_positive limit && exceeded
      then deps.timeout_message limit
      else codes "error: " ++ (e ++ codes "\n")

  abbrev pub report_of : Status → Text → Report
  report_of success message = record { status = success; stdout = message ∷ []; stderr = [] }
  report_of error message = record { status = error; stdout = []; stderr = message ∷ [] }
  report_of timeout message = record { status = timeout; stdout = []; stderr = message ∷ [] }

  -- runJob, with both callbacks given
  unfoldable pub run_job : Source → ℤ → W → Report × W
  unfolding status_of message_of write_result
  run_job source limit w =
      let (answer, w₁) = deps.generate (deadline limit) (job.prompt) w in
      let status = status_of limit answer in
      let message = message_of limit answer in
      let (name, w₂) = write_result source status w message w₁ in (report_of status message, w₂)

  unfoldable pub execute : W → Report × W
  unfolding run_job
  execute w = run_job scheduled (job.timeout) w

  -- The timeout of ExecuteTest: the option's, the job's, or the default.
  unfoldable pub test_timeout : ℤ → ℤ
  test_timeout option =
      if is_positive option
      then option
      else if is_positive (job.timeout)
      then job.timeout
      else test_default_timeout

  unfoldable pub execute_test : ℤ → W → Report × W
  unfolding run_job test_timeout
  execute_test option w = run_job manual (test_timeout option) w
