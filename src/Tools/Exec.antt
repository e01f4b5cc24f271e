-- ===== src/Tools/Exec.antt =====
-- pkg/agent/tools/exec.go: the bash and node tools around bounded execution (pkg/exec/bounded).
use gonesis.Prelude.{
  ℕ, zero, suc, ◌*◌, Text, codes, List, [], ◌∷◌, ℤ, pos, negsuc, Option, none, some, Result, ok,
  err,
}
use gonesis.Bounded.Run.{Opts, Outcome, RunResult, RunError, run}

pub record ExecConfig : Type 0 where
  pub max_timeout_seconds : ℤ
  pub head_bytes : ℤ
  pub tail_bytes : ℤ

-- A positive number of seconds in nanoseconds; otherwise the field of the options stays zero.
unfoldable pub seconds : ℤ → ℤ
seconds (pos zero) = pos 0
seconds (pos (suc n)) = pos (suc n * 1_000_000_000)
seconds (negsuc n) = pos 0

-- boundedOpts
unfoldable pub bounded_opts : ExecConfig → Text → ℤ → Opts
unfolding seconds
bounded_opts cfg work_dir timeout_seconds = record {
  timeout = seconds timeout_seconds;
  max_timeout = seconds (cfg.max_timeout_seconds);
  head_bytes = cfg.head_bytes;
  tail_bytes = cfg.tail_bytes;
  work_dir = work_dir;
}

-- What both tools return of a run: their outputs have the fields of its result.
unfoldable pub output_of : RunResult × Option RunError → Result RunError RunResult
output_of (res, some e) = err e
output_of (res, none) = ok res

-- The functions of newBashTool and newNodeTool
module _ (exec : ℕ → Text → List Text → Text → Outcome) (work_dir : Text) (cfg : ExecConfig) where
  unfoldable pub bash : Text → ℤ → Result RunError RunResult
  unfolding bounded_opts output_of
  bash command timeout_seconds = output_of (
      run exec (codes "bash") (codes "-c" ∷ command ∷ [])
        (bounded_opts cfg work_dir timeout_seconds))

  unfoldable pub node : Text → ℤ → Result RunError RunResult
  unfolding bounded_opts output_of
  node script timeout_seconds = output_of (
      run exec (codes "node") (codes "-e" ∷ script ∷ [])
        (bounded_opts cfg work_dir timeout_seconds))
