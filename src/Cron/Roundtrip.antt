-- ===== src/Cron/Roundtrip.antt =====
-- A cron job that is serialized is parsed back.
use gonesis.Prelude.{
  ℕ, zero, suc, Text, text_eq_ne, none, [], ◌∷◌, ◌++◌, ok, ◌>>=◌, pos, ◌≡◌, ◌≢◌, refl, ap, arith,
  append_assoc,
}
use gonesis.Strings.{trim_space, index, is_space, trim_left, trim_right}
use gonesis.Strings.Trim.{trim_space-lines}
use gonesis.Frontmatter.{opening, fence}
use gonesis.Frontmatter.Fence.{split_frontmatter-written}
use gonesis.Cron.{
  CronJob, Formats, parse_timeout_text, job_of, parse, timeout_text, raw_of, body_lines, serialize,
}

-- What the libraries do with one job: YAML writes its struct as lines that do not hold a line of
-- three dashes behind a newline, and reads it back from them; a positive duration is read back from
-- its text.
pub record ReadsBack (lib : Formats) (job : CronJob) : Type 0 where
  pub yaml : Text
  pub marshalled : lib.marshal (raw_of lib job) ≡ ok (yaml ++ 10 ∷ [])
  pub no_fence : index fence yaml ≡ none
  pub unmarshalled : lib.unmarshal yaml ≡ ok (raw_of lib job)
  pub some_text : (n : ℕ) → job.timeout ≡ pos (suc n) → lib.duration_string (pos (suc n)) ≢ []
  pub parsed :
      (n : ℕ)
      → job.timeout ≡ pos (suc n)
      → lib.parse_duration (lib.duration_string (pos (suc n))) ≡ ok (pos (suc n))

timeout-back :
    (lib : Formats) (n : ℕ) (s : Text)
    → s ≢ []
    → lib.parse_duration s ≡ ok (pos n)
    → parse_timeout_text lib s ≡ ok (pos n)
unfolding parse_timeout_text
timeout-back lib n [] h e = absurd (h refl)
timeout-back lib n (c ∷ s) h e = ground (arith, e)

timeout_text-back :
    (lib : Formats) (job : CronJob) (n : ℕ)
    → ReadsBack lib job
    → job.timeout ≡ pos n
    → parse_timeout_text lib (timeout_text lib (job.timeout)) ≡ ok (job.timeout)
timeout_text-back lib job zero r e = rw e (unfold timeout_text parse_timeout_text in refl)
timeout_text-back lib job (suc n) r e =
    let back =
      timeout-back lib (suc n) (lib.duration_string (pos (suc n))) (r.some_text n e)
        (r.parsed n e) in
    rw e (unfold timeout_text in back)

trim_space-body_lines : (s : Text) → trim_space (10 ∷ body_lines s) ≡ trim_space s
unfolding body_lines
trim_space-body_lines [] = unfold trim_space is_space trim_left trim_right in refl
trim_space-body_lines (c ∷ s) = trim_space-lines (c ∷ s)

written_parts :
    (yaml prompt : Text)
    → opening ++ ((yaml ++ 10 ∷ []) ++ (opening ++ body_lines prompt))
      ≡ opening ++ (yaml ++ (fence ++ 10 ∷ body_lines prompt))
written_parts yaml prompt =
    ap (λ t. opening ++ t) (append_assoc yaml (10 ∷ []) (opening ++ body_lines prompt))

job_of-raw_of :
    (lib : Formats) (job : CronJob) (n : ℕ)
    → ReadsBack lib job
    → job.name ≢ []
    → job.schedule ≢ []
    → job.timeout ≡ pos n
    → job_of lib (job.prompt) (ok (raw_of lib job)) ≡ ok job
unfolding job_of raw_of
job_of-raw_of lib job n r name schedule timeout = rw (
  text_eq_ne (job.name) [] name,
  text_eq_ne (job.schedule) [] schedule,
  timeout_text-back lib job n r timeout,
)

parse-written :
    (lib : Formats) (yaml prompt : Text)
    → index fence yaml ≡ none
    → trim_space prompt ≡ prompt
    → parse lib (opening ++ (yaml ++ (fence ++ 10 ∷ body_lines prompt)))
      ≡ job_of lib prompt (lib.unmarshal yaml)
unfolding parse
parse-written lib yaml prompt h t =
    rw (split_frontmatter-written yaml (10 ∷ body_lines prompt) h, trim_space-body_lines prompt, t)

-- A job with a name, a schedule, a timeout that is not negative and a prompt without space around
-- it is serialized, and parsing the text gives the job back, when YAML and durations read back what
-- they wrote.
pub parse-serialize :
    (lib : Formats) (job : CronJob) (n : ℕ)
    → ReadsBack lib job
    → job.name ≢ []
    → job.schedule ≢ []
    → job.timeout ≡ pos n
    → trim_space (job.prompt) ≡ job.prompt
    → serialize lib job >>= parse lib ≡ ok job
parse-serialize lib job n r name schedule timeout prompt =
    let text : serialize lib job
        ≡ ok (opening ++ (r.yaml ++ (fence ++ 10 ∷ body_lines (job.prompt)))) =
      unfold serialize in rw (r.marshalled) (ap ok (written_parts (r.yaml) (job.prompt))) in
    rw (text, parse-written lib (r.yaml) (job.prompt) (r.no_fence) prompt, r.unmarshalled)
      (job_of-raw_of lib job n r name schedule timeout)
