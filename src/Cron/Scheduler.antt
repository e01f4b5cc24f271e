-- ===== src/Cron/Scheduler.antt =====
-- pkg/cron/scheduler.go: the scheduler's entries and the jobs that are registered with the gocron
-- library, which is `Gocron`. The mutex makes each method one step.
pub mod Registered
use gonesis.Prelude.{
  zero, suc, pos, negsuc, ℕ, ◌+◌, Text, Option, none, some, List, [], ◌∷◌, ◌++◌, if◌then◌else◌,
  Result, ok, err, ℤ, pos, length,
}
use gonesis.Cron.{CronJob, LoadResult, suc, map, negsuc}

pub data JobStatus : Type 0 where
  running : JobStatus
  suspended : JobStatus
  error : JobStatus

-- jobEntry; a job of gocron is a `J`.
pub record JobEntry (J : Type 0) : Type 0 where
  pub name : Text
  pub schedule : Text
  pub prompt : Text
  pub timeout : ℤ
  pub status : JobStatus
  pub err_msg : Text
  pub g_job : Option J

-- gocron's scheduler `G`: Jobs, RemoveJob and NewJob
pub record Gocron (G J : Type 0) : Type 0 where
  pub jobs : G → List J
  pub remove_job : J → G → Option Text × G
  pub new_job : CronJob → G → Result Text J × G

pub record Scheduler (G J : Type 0) : Type 0 where
  pub gocron : G
  pub entries : List (JobEntry J)

abbrev pub entry_error : {J : Type 0} → Text → Text → JobEntry J
entry_error name message = record {
  name = name;
  schedule = [];
  prompt = [];
  timeout = pos 0;
  status = error;
  err_msg = message;
  g_job = none;
}

-- The entry of a job that was read
abbrev pub entry_of : {J : Type 0} → Text → CronJob → JobStatus → Text → Option J → JobEntry J
entry_of name job status message g_job = record {
  name = name;
  schedule = job.schedule;
  prompt = job.prompt;
  timeout = job.timeout;
  status = status;
  err_msg = message;
  g_job = g_job;
}

module _ {G J : Type 0} (lib : Gocron G J) where
  -- The loop that removes the registered jobs
  unfoldable pub remove_jobs : List J → G → G
  remove_jobs [] g = g
  remove_jobs (j ∷ js) g = remove_jobs js ((lib.remove_job j g).1)

  -- The default case of the switch: the job is registered.
  unfoldable pub register : Text → CronJob → Result Text J → JobEntry J
  register name job (ok j) = entry_of name job running [] (some j)
  register name job (err e) = entry_of name job error e none

  -- The switch over one result
  unfoldable pub classify_job : Text → Result Text CronJob → G → JobEntry J × G
  unfolding register
  classify_job name (err e) g = (entry_error name e, g)
  classify_job name (ok job) g =
      let (made, g') = lib.new_job job g in
      if job.suspended
      then (entry_of name job suspended [] none, g)
      else (register name job made, g')

  unfoldable pub classify : LoadResult → G → JobEntry J × G
  unfolding classify_job
  classify r g = classify_job (r.name) (r.job) g

  abbrev pub is_running : JobEntry J → ℕ
  is_running e = elim (e.status) [ running ↦ 1 | suspended ↦ 0 | error ↦ 0 ]

  -- The loop over the results: the count of running jobs, the entries and the library's scheduler.
  unfoldable pub classify_all :
      List LoadResult → ℕ → List (JobEntry J) → G → (ℕ × List (JobEntry J)) × G
  unfolding classify
  classify_all [] count entries g = ((count, entries), g)
  classify_all (r ∷ results) count entries g =
      let (e, g') = classify r g in
      classify_all results (count + is_running e) (entries ++ e ∷ []) g'

  unfoldable pub rebuild_entries : List LoadResult → Scheduler G J → ℕ × Scheduler G J
  unfolding remove_jobs classify_all
  rebuild_entries results s =
      let ((count, entries), g) =
        classify_all results 0 [] (remove_jobs (lib.jobs (s.gocron)) (s.gocron)) in
      (count, record { gocron = g; entries = entries })

  unfoldable pub job_count : Scheduler G J → ℕ
  job_count s = length (lib.jobs (s.gocron))

  -- LoadAndStart and Reload under the mutex: both rebuild the entries, and the first one starts the
  -- library's scheduler as well. The results are what LoadAllResults gives.
  unfoldable pub load_and_start : (G → G) → List LoadResult → Scheduler G J → Scheduler G J
  unfolding rebuild_entries
  load_and_start start results s =
      let (count, s') = rebuild_entries results s in
      record { gocron = start (s'.gocron); entries = s'.entries }

  unfoldable pub reload : List LoadResult → Scheduler G J → Scheduler G J
  unfolding rebuild_entries
  reload results s = (rebuild_entries results s).1

-- JobInfo; a text that is empty is left out of the JSON.
pub record JobInfo : Type 0 where
  pub name : Text
  pub schedule : Text
  pub status : JobStatus
  pub prompt : Text
  pub timeout : Text
  pub next_run : Text
  pub last_run : Text
  pub err_msg : Text

abbrev timeout_of : (ℤ → Text) → ℤ → Text
timeout_of duration_string (pos zero) = []
timeout_of duration_string (pos (suc n)) = duration_string (pos (suc n))
timeout_of duration_string (negsuc n) = []

abbrev run_of : {J : Type 0} → (J → Option Text) → Option J → Text
run_of run none = []
run_of run (some j) = elim (run j) [ none ↦ [] | some time ↦ time ]

-- `next` and `last` are NextRun and LastRun, formatted; an error or a zero time is `none`.
module _ {J : Type 0} (duration_string : ℤ → Text) (next last : J → Option Text) where
  unfoldable pub job_info : JobEntry J → JobInfo
  job_info e = record {
    name = e.name;
    schedule = e.schedule;
    status = e.status;
    prompt = e.prompt;
    timeout = timeout_of duration_string (e.timeout);
    next_run = run_of next (e.g_job);
    last_run = run_of last (e.g_job);
    err_msg = e.err_msg;
  }

  unfoldable pub list_jobs : {G : Type 0} → Scheduler G J → List JobInfo
  unfolding job_info
  list_jobs s = map job_info (s.entries)
