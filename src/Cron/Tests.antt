-- ===== src/Cron/Tests.antt =====
-- A job, a run of it, and a scheduler with two files.
use gonesis.Prelude.{
  Option, some, if◌then◌else◌, ◌==◌, Bool-cases, inl, inr, append-nil, ℤ, ℕ, suc, Text, codes, true,
  false, none, List, [], ◌∷◌, ◌++◌, Result, ok, err, ◌>>=◌, pos, length, ◌≡◌, refl, ap, arith,
}
use mathlib.Core.Path.{subst}
use mathlib.Core.List.{Perm, perm_middle}
use mathlib.Core.List.Perm
use gonesis.Strings.{index, trim_space}
use gonesis.Frontmatter.{fence}
use gonesis.Cron.{CronJob, RawJob, Formats, LoadResult, raw_of, parse, serialize}
use gonesis.Cron.Roundtrip.{ReadsBack, parse-serialize}
use gonesis.Cron.Field.{set_field}
use gonesis.Cron.Field.Lines.{FieldSet, set_field-OneLine}
use gonesis.Cron.Executor.{Deps, test_timeout, execute_test}
use gonesis.Cron.Executor.Exit.{Tells, answer_of, execute_test-exit_code}
use gonesis.Cron.Scheduler.{Gocron, rebuild_entries, Scheduler}
use gonesis.Cron.Scheduler.Registered.{GocronLaws, unremoved, Rebuilt, rebuild_entries-held}

abbrev daily : CronJob
daily = record {
  name = codes "daily";
  schedule = codes "0 9 * * *";
  suspended = false;
  timeout = pos 5;
  prompt = codes "Say hi.";
}

abbrev raw_daily : RawJob
raw_daily = record {
  name = codes "daily";
  schedule = codes "0 9 * * *";
  suspended = false;
  timeout = codes "5ns";
}

abbrev formats : Formats
formats = record {
  marshal = λ raw. ok (codes "name: daily\n");
  unmarshal = λ text. ok raw_daily;
  duration_string = λ d. codes "5ns";
  parse_duration = λ text. ok (pos 5);
}

no_fence : index fence (codes "name: daily") ≡ none
unfolding index
no_fence = refl

five :
    (n : ℕ) → daily.timeout ≡ pos (suc n) → ◌≡◌ {A = Result Text ℤ} (ok (pos 5)) (ok (pos (suc n)))
five n e = ap ok e

read_raw : formats.unmarshal (codes "name: daily") ≡ ok (raw_of formats daily)
unfolding raw_of
read_raw = refl

daily-ReadsBack : ReadsBack formats daily
daily-ReadsBack = record {
  yaml = codes "name: daily";
  marshalled = refl;
  no_fence = no_fence;
  unmarshalled = read_raw;
  some_text = λ n e f. cc;
  parsed = λ n e. five n e;
}

parse-serialize_example : serialize formats daily >>= parse formats ≡ ok daily
unfolding trim_space
parse-serialize_example =
    parse-serialize formats daily 5 daily-ReadsBack (λ e. cc) (λ e. cc) refl refl

set_run :
    set_field
      (codes "timeout")
      (ok (codes "5m\n"))
      (codes "---\nname: a\ntimeout: 1m # short\n---\nhi")
    ≡ ok (codes "---\nname: a\ntimeout: 5m # short\n---\nhi")
unfolding set_field
set_run = refl

set_field-OneLine_example :
    FieldSet
      (codes "timeout")
      (ok (codes "5m\n"))
      (codes "---\nname: a\ntimeout: 1m # short\n---\nhi")
      (codes "---\nname: a\ntimeout: 5m # short\n---\nhi")
set_field-OneLine_example =
    set_field-OneLine (codes "timeout") (codes "---\nname: a\ntimeout: 1m # short\n---\nhi")
      (codes "---\nname: a\ntimeout: 5m # short\n---\nhi") (ok (codes "5m\n")) set_run

-- A provider that is too slow.
abbrev deps : Deps ℕ
deps = record {
  generate = λ limit prompt w. ((err (codes "context deadline exceeded"), true), suc w);
  stamp = λ w. codes "20260101-000000";
  frontmatter = λ source status start w. codes "status: timeout\n";
  timeout_message = λ d. codes "Timed out after 5ns.\n";
  mkdir_all = λ path w. (none, w);
  write_file = λ path text w. (none, suc w);
}

timed_out : (execute_test deps (codes "/r") daily (pos 0) 0).1 ≡ 2
unfolding execute_test
timed_out = refl

execute_test-exit_code_example :
    Tells deps
      (codes "/r")
      daily
      (test_timeout deps (codes "/r") daily (pos 0))
      ((execute_test deps (codes "/r") daily (pos 0) 0).0)
      (answer_of deps (codes "/r") daily (test_timeout deps (codes "/r") daily (pos 0)) 0)
execute_test-exit_code_example = execute_test-exit_code deps (codes "/r") daily (pos 0) 0

-- The library's jobs are numbers, the newest first; one without a schedule is refused, and one that
-- is not there cannot be removed.
abbrev new_job : Text → List ℕ → Result Text ℕ × List ℕ
new_job [] g = (err (codes "bad schedule"), g)
new_job (c ∷ s) g = (ok (length g), length g ∷ g)

abbrev put_back : ℕ → Option Text × List ℕ → Option Text × List ℕ
put_back k (e, g) = (e, k ∷ g)

abbrev remove_job : ℕ → List ℕ → Option Text × List ℕ
remove_job j [] = (some (codes "job not found"), [])
remove_job j (k ∷ g) = let rest = put_back k (remove_job j g) in if k == j then (none, g) else rest

abbrev gocron : Gocron (List ℕ) ℕ
gocron = record {
  jobs = λ g. g;
  remove_job = remove_job;
  new_job = λ job g. new_job (job.schedule) g;
}

same_perm : {xs ys : List ℕ} → xs ≡ ys → Perm xs ys
same_perm {xs = xs} e = subst (Perm xs) e (Perm.refl xs)

removed : (j : ℕ) (g : List ℕ) → (remove_job j g).0 ≡ none → Perm g (j ∷ (remove_job j g).1)
removed j [] e = absurd (ground (arith, e))
removed j (k ∷ g) e = elim (Bool-cases (k == j)) [
  | inl same ↦ let at : k ≡ j = ground (arith, same) in rw same (same_perm (ap (λ x. x ∷ g) at))
  | inr other ↦
      let rest : Perm g (j ∷ (remove_job j g).1) = removed j g (ground (arith, other, e)) in
      rw other (Perm.trans (Perm.cons k rest) (Perm.swap j k ((remove_job j g).1)))
]

not_removed : (j : ℕ) (g : List ℕ) (m : Text) → (remove_job j g).0 ≡ some m → (remove_job j g).1 ≡ g
not_removed j [] m e = refl
not_removed j (k ∷ g) m e = elim (Bool-cases (k == j)) [
  | inl same ↦ absurd (ground (arith, same, e))
  | inr other ↦ rw other (ap (λ l. k ∷ l) (not_removed j g m (ground (arith, other, e))))
]

made :
    (s : Text) (g : List ℕ) (j : ℕ) → (new_job s g).0 ≡ ok j → Perm ((new_job s g).1) (g ++ j ∷ [])
made [] g j e = absurd (ground (arith, e))
made (c ∷ s) g j e =
    let at : length g ≡ j = ground (arith, e) in
    let front : Perm (g ++ j ∷ []) (j ∷ g) =
      subst (λ l. Perm (g ++ j ∷ []) (j ∷ l)) (append-nil g) (perm_middle g []) in
    Perm.trans (same_perm (ap (λ k. k ∷ g) at)) (Perm.symm front)

refused : (s : Text) (g : List ℕ) (m : Text) → (new_job s g).0 ≡ err m → (new_job s g).1 ≡ g
refused [] g m e = refl
refused (c ∷ s) g m e = absurd (ground (arith, e))

gocron-GocronLaws : GocronLaws gocron
gocron-GocronLaws = record {
  removed = λ j g e. removed j g e;
  not_removed = λ j g m e. same_perm (not_removed j g m e);
  made = λ job g j e. made (job.schedule) g j e;
  refused = λ job g m e. same_perm (refused (job.schedule) g m e);
}

abbrev loaded : List LoadResult
loaded =
    record { name = codes "daily"; path = codes "daily.md"; job = ok daily }
    ∷ record { name = codes "broken"; path = codes "broken.md"; job = err (codes "no name") }
    ∷ []

abbrev before : Scheduler (List ℕ) ℕ
before = record { gocron = 3 ∷ 4 ∷ []; entries = [] }

rebuild_entries-held_example :
    Rebuilt gocron gocron-GocronLaws
      (unremoved gocron (3 ∷ 4 ∷ []) (3 ∷ 4 ∷ []))
      loaded
      (rebuild_entries gocron loaded before).0
      (rebuild_entries gocron loaded before).1
rebuild_entries-held_example = rebuild_entries-held gocron gocron-GocronLaws loaded before
