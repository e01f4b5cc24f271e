-- ===== src/Bounded/Run.antt =====
-- `Run` of pkg/exec/bounded/bounded.go. What os/exec does with the command is a parameter: it is
-- given the timeout, the name, the arguments and the directory, and tells what came of it.
use mathlib.Core.List.{flatten}
use gonesis.Prelude.{
  ℕ, zero, suc, ◌+◌, ◌*◌, ◌<◌, ◌≤◌, Text, Bool, true, false, Option, none, some, List, [], ◌≡◌,
  refl, arith, if◌then◌else◌, ltb, ℤ, pos, negsuc, length,
}
use gonesis.Bounded.{Bytes, new_head_tail_buf, write_all, render}
use gonesis.Bounded.Writes.{write_all-Holds}
use gonesis.Bounded.Render.{Truncated, render_short, render_long}

-- Durations are in nanoseconds.
abbrev pub default_timeout : ℕ
default_timeout = 30 * 1_000_000_000

abbrev pub default_max_timeout : ℕ
default_max_timeout = 600 * 1_000_000_000

abbrev pub default_head_bytes : ℕ
default_head_bytes = 24576

abbrev pub default_tail_bytes : ℕ
default_tail_bytes = 6144

pub record Opts : Type 0 where
  pub timeout : ℤ
  pub max_timeout : ℤ
  pub head_bytes : ℤ
  pub tail_bytes : ℤ
  pub work_dir : Text

-- How `cmd.Run` returns: no error, an `*exec.ExitError` with its code, or another error.
pub data RunErr : Type 0 where
  finished : RunErr
  exit_error : ℤ → RunErr
  other_error : Text → RunErr

-- What a started process does: its writes to the two streams, whether the deadline passed, and the
-- error of `cmd.Run`.
pub record Outcome : Type 0 where
  pub stdout_writes : List Bytes
  pub stderr_writes : List Bytes
  pub deadline_exceeded : Bool
  pub run_err : RunErr

pub record RunResult : Type 0 where
  pub stdout : Bytes
  pub stderr : Bytes
  pub exit_code : ℤ
  pub timed_out : Bool
  pub stdout_total_bytes : ℕ
  pub stderr_total_bytes : ℕ

-- The errors of `Run` itself.
pub data RunError : Type 0 where
  timeout_exceeds_maximum : ℕ → ℕ → RunError
  run_failed : Text → RunError

abbrev pub no_result : RunResult
no_result = record {
  stdout = [];
  stderr = [];
  exit_code = pos 0;
  timed_out = false;
  stdout_total_bytes = 0;
  stderr_total_bytes = 0;
}

-- A field that is not positive falls back to its default.
abbrev pub or_default : ℤ → ℕ → ℕ
or_default (pos zero) d = d
or_default (pos (suc n)) d = suc n
or_default (negsuc n) d = d

-- The `switch` behind `cmd.Run`.
pub with_exit : Bool → RunErr → RunResult → RunResult × Option RunError
with_exit true e res = (record res { exit_code = negsuc 0 }, none)
with_exit false finished res = (record res { exit_code = pos 0 }, none)
with_exit false (exit_error code) res = (record res { exit_code = code }, none)
with_exit false (other_error msg) res = (res, some (run_failed msg))

-- The result that the two buffers give, with the exit code still zero.
pub captured : ℕ → ℕ → Outcome → RunResult
captured hc tc o =
    let out = write_all (new_head_tail_buf hc tc) o.stdout_writes in
    let e = write_all (new_head_tail_buf hc tc) o.stderr_writes in
    record {
      stdout = render out;
      stderr = render e;
      exit_code = pos 0;
      timed_out = o.deadline_exceeded;
      stdout_total_bytes = out.total;
      stderr_total_bytes = e.total;
    }

module _ (exec : ℕ → Text → List Text → Text → Outcome) where
  pub run : Text → List Text → Opts → RunResult × Option RunError
  run name args opts =
      let max_t = or_default opts.max_timeout default_max_timeout in
      let timeout = or_default opts.timeout default_timeout in
      let hc = or_default opts.head_bytes default_head_bytes in
      let tc = or_default opts.tail_bytes default_tail_bytes in
      let o = exec timeout name args opts.work_dir in
      if ltb max_t timeout
      then (no_result, some (timeout_exceeds_maximum timeout max_t))
      else with_exit o.deadline_exceeded o.run_err (captured hc tc o)

-- A stream shown in full, or cut in the middle, with the count of all its bytes.
pub record Shows (hc tc : ℕ) (writes : List Bytes) (out : Bytes) (total : ℕ) : Type 0 where
  pub counts : total ≡ length (flatten writes)
  pub whole : length (flatten writes) ≤ hc + tc → out ≡ flatten writes
  pub cut : hc + tc < length (flatten writes) → Truncated hc tc (flatten writes) out

stream-Shows :
    (hc tc : ℕ) (ps : List Bytes)
    → 0 < tc
    → let b = write_all (new_head_tail_buf hc tc) ps in Shows hc tc ps (render b) b.total
stream-Shows hc tc ps tc_pos = record {
  counts = (write_all-Holds hc tc ps tc_pos).total_counts;
  whole = render_short hc tc ps tc_pos;
  cut = render_long hc tc ps tc_pos;
}

or_default_pos : (z : ℤ) (d : ℕ) → 0 < d → 0 < or_default z d
or_default_pos (pos zero) d h = h
or_default_pos (pos (suc n)) d h = omega arith
or_default_pos (negsuc n) d h = h

with_exit_streams :
    (t : Bool) (e : RunErr) (res : RunResult)
    → ((with_exit t e res).0.stdout ≡ res.stdout)
      × ((with_exit t e res).0.stderr ≡ res.stderr)
      × ((with_exit t e res).0.stdout_total_bytes ≡ res.stdout_total_bytes)
      × ((with_exit t e res).0.stderr_total_bytes ≡ res.stderr_total_bytes)
      × ((with_exit t e res).0.timed_out ≡ res.timed_out)
unfolding with_exit
with_exit_streams true e res = (refl, refl, refl, refl, refl)
with_exit_streams false finished res = (refl, refl, refl, refl, refl)
with_exit_streams false (exit_error c) res = (refl, refl, refl, refl, refl)
with_exit_streams false (other_error m) res = (refl, refl, refl, refl, refl)

-- The timeout and the buffer sizes that a call uses.
abbrev pub limit_of : Opts → ℕ
limit_of opts = or_default opts.max_timeout default_max_timeout

abbrev pub timeout_of : Opts → ℕ
timeout_of opts = or_default opts.timeout default_timeout

abbrev pub head_of : Opts → ℕ
head_of opts = or_default opts.head_bytes default_head_bytes

abbrev pub tail_of : Opts → ℕ
tail_of opts = or_default opts.tail_bytes default_tail_bytes

run_within :
    (exec : ℕ → Text → List Text → Text → Outcome) (name : Text) (args : List Text) (opts : Opts)
    → timeout_of opts ≤ limit_of opts
    → let o = exec (timeout_of opts) name args opts.work_dir in
      run exec name args opts
      ≡ with_exit o.deadline_exceeded o.run_err (captured (head_of opts) (tail_of opts) o)
unfolding run
run_within exec name args opts h =
    let no_error : ltb (limit_of opts) (timeout_of opts) ≡ false = ground arith in rw no_error

-- Whatever the options and the process, a call whose timeout is within the maximum returns both
-- streams as `String` shows them, with the count of all their bytes: whole if they fit, and else cut
-- in the middle. No option makes the ring of the tail empty.
pub run_streams :
    (exec : ℕ → Text → List Text → Text → Outcome) (name : Text) (args : List Text) (opts : Opts)
    → timeout_of opts ≤ limit_of opts
    → let o = exec (timeout_of opts) name args opts.work_dir in
      let res = (run exec name args opts).0 in
      Shows (head_of opts) (tail_of opts) o.stdout_writes res.stdout res.stdout_total_bytes
      × Shows (head_of opts) (tail_of opts) o.stderr_writes res.stderr res.stderr_total_bytes
unfolding captured
run_streams exec name args opts h =
    let o = exec (timeout_of opts) name args opts.work_dir in
    let tc_pos : 0 < tail_of opts =
      or_default_pos opts.tail_bytes default_tail_bytes (omega arith) in
    let res = captured (head_of opts) (tail_of opts) o in
    let kept = with_exit_streams o.deadline_exceeded o.run_err res in
    rw (run_within exec name args opts h, kept.0, kept.1, kept.2, kept.3)
      (
        stream-Shows (head_of opts) (tail_of opts) o.stdout_writes tc_pos,
        stream-Shows (head_of opts) (tail_of opts) o.stderr_writes tc_pos,
      )
