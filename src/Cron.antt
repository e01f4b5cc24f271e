-- ===== src/Cron.antt =====
-- pkg/cron: the cron jobs, their files, the executor and the scheduler. A string is its code points. YAML and
-- the text form of durations are the libraries' (`Formats`).
mod Tests
pub mod Roundtrip
pub mod Field
pub mod Executor
pub mod Scheduler
use gonesis.Prelude.{
  ℕ, zero, suc, ◌+◌, Text, codes, text_eq, Bool, true, false, not, Option, none, some, List, [],
  ◌∷◌, ◌++◌, if◌then◌else◌, Result, ok, err, ◌>>=◌, ℤ, pos, negsuc, drop, map,
}
use gonesis.Strings.{trim_space, has_prefix, index}
use gonesis.Frontmatter.{opening, fence, FrontmatterError, split_frontmatter}

-- CronJob; a duration is its number of nanoseconds.
pub record CronJob : Type 0 where
  pub name : Text
  pub schedule : Text
  pub suspended : Bool
  pub timeout : ℤ
  pub prompt : Text

-- The struct that Parse and Serialize give to the YAML library.
pub record RawJob : Type 0 where
  pub name : Text
  pub schedule : Text
  pub suspended : Bool
  pub timeout : Text

-- yaml.Marshal and yaml.Unmarshal of a RawJob, time.Duration.String and time.ParseDuration
pub record Formats : Type 0 where
  pub marshal : RawJob → Result Text Text
  pub unmarshal : Text → Result Text RawJob
  pub duration_string : ℤ → Text
  pub parse_duration : Text → Result Text ℤ

pub data CronError : Type 0 where
  frontmatter : FrontmatterError → CronError
  parse_frontmatter : Text → CronError
  name_is_required : CronError
  schedule_is_required : CronError
  parse_timeout : Text → Text → CronError
  negative_timeout : Text → CronError
  marshal_frontmatter : Text → CronError

abbrev with_frontmatter : Result FrontmatterError (Text × Text) → Result CronError (Text × Text)
with_frontmatter (ok parts) = ok parts
with_frontmatter (err e) = err (frontmatter e)

abbrev non_negative : Text → Result Text ℤ → Result CronError ℤ
non_negative raw (err e) = err (parse_timeout raw e)
non_negative raw (ok (pos n)) = ok (pos n)
non_negative raw (ok (negsuc n)) = err (negative_timeout raw)

-- The timeout's text in Parse
unfoldable pub parse_timeout_text : Formats → Text → Result CronError ℤ
parse_timeout_text lib [] = ok (pos 0)
parse_timeout_text lib (c ∷ raw) = non_negative (c ∷ raw) (lib.parse_duration (c ∷ raw))

-- Parse behind yaml.Unmarshal
unfoldable pub job_of : Formats → Text → Result Text RawJob → Result CronError CronJob
unfolding parse_timeout_text
job_of lib body (err e) = err (parse_frontmatter e)
job_of lib body (ok raw) =
    if text_eq (raw.name) []
    then err name_is_required
    else if text_eq (raw.schedule) []
    then err schedule_is_required
    else do
      timeout ← parse_timeout_text lib (raw.timeout)
      ok (record {
        name = raw.name;
        schedule = raw.schedule;
        suspended = raw.suspended;
        timeout = timeout;
        prompt = body;
      })

unfoldable pub parse : Formats → Text → Result CronError CronJob
unfolding split_frontmatter job_of trim_space
parse lib content = do
  parts ← with_frontmatter (split_frontmatter content)
  job_of lib (trim_space (drop 4 (parts.1))) (lib.unmarshal (parts.0))

-- The timeout's text in Serialize
unfoldable pub timeout_text : Formats → ℤ → Text
timeout_text lib (pos zero) = []
timeout_text lib (pos (suc n)) = lib.duration_string (pos (suc n))
timeout_text lib (negsuc n) = []

unfoldable pub raw_of : Formats → CronJob → RawJob
unfolding timeout_text
raw_of lib job = record {
  name = job.name;
  schedule = job.schedule;
  suspended = job.suspended;
  timeout = timeout_text lib (job.timeout);
}

unfoldable pub body_lines : Text → Text
body_lines [] = []
body_lines (c ∷ prompt) = (c ∷ prompt) ++ 10 ∷ []

-- What Serialize writes around the YAML
unfoldable pub file_text : Text → Result Text Text → Result CronError Text
unfolding body_lines
file_text prompt (err e) = err (marshal_frontmatter e)
file_text prompt (ok fm) = ok (opening ++ (fm ++ (opening ++ body_lines prompt)))

unfoldable pub serialize : Formats → CronJob → Result CronError Text
unfolding raw_of file_text
serialize lib job = file_text (job.prompt) (lib.marshal (raw_of lib job))

unfoldable pub filename : Text → Text
filename name = name ++ codes ".md"

-- LoadResult: a job, or the error of its file.
pub record LoadResult : Type 0 where
  pub name : Text
  pub path : Text
  pub job : Result Text CronJob

-- A file of the directory: what filepath.Glob gives with its base name's stem, and what os.ReadFile
-- gives. The texts of errors are a parameter.
pub record CronFile : Type 0 where
  pub path : Text
  pub stem : Text
  pub content : Result Text Text

module _ (lib : Formats) (message : CronError → Text) where
  unfoldable pub load_result : CronFile → LoadResult
  unfolding parse
  load_result file = elim (file.content) [
    | err e ↦ record { name = file.stem; path = file.path; job = err e }
    | ok content ↦ elim (parse lib content) [
      | err e ↦ record { name = file.stem; path = file.path; job = err (message e) }
      | ok job ↦ record { name = job.name; path = file.path; job = ok job }
    ]
  ]

  -- LoadAllResults; the error of filepath.Glob has no name and no path.
  unfoldable pub load_all_results : Result Text (List CronFile) → List LoadResult
  unfolding load_result
  load_all_results (err e) = record { name = []; path = []; job = err e } ∷ []
  load_all_results (ok files) = map load_result files

-- The loop of LoadAll
unfoldable pub partition_results : List LoadResult → List CronJob × List Text
partition_results [] = ([], [])
partition_results (r ∷ results) =
    let (jobs, errs) = partition_results results in
    elim (r.job) [ ok job ↦ (job ∷ jobs, errs) | err e ↦ (jobs, e ∷ errs) ]
