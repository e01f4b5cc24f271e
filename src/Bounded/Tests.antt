-- ===== src/Bounded/Tests.antt =====
-- Concrete runs of the buffers, and the theorems at inputs that meet their hypotheses.
use mathlib.Core.List.{flatten}
use gonesis.Prelude.{codes, false, List, [], ◌∷◌, ◌++◌, ◌≡◌, refl, arith, pos}
use gonesis.Strconv.{itoa}
use gonesis.Bounded.{Bytes, new_head_tail_buf, write_all, write, put_bytes, put_byte, render}
use gonesis.Bounded.{linear_tail, head_part, tail_part, marker}
use gonesis.Bounded.Render.{Truncated, render_long}
use gonesis.Bounded.Run.{Opts, Outcome, Shows, finished, run, run_streams}

-- "ab\ncd" and "ef\ngh" and "i" into a buffer of four and four bytes
abbrev chunks : List Bytes
chunks = (97 ∷ 98 ∷ 10 ∷ 99 ∷ 100 ∷ []) ∷ (101 ∷ 102 ∷ 10 ∷ 103 ∷ 104 ∷ []) ∷ (105 ∷ []) ∷ []

chunks_shown :
    render (write_all (new_head_tail_buf 4 4) chunks)
    ≡ 97 ∷ 98 ∷ 10 ∷ codes "[... truncated 5 bytes from middle ...]" ++ 10 ∷ 103 ∷ 104 ∷ 105 ∷ []
unfolding render write_all write put_bytes put_byte new_head_tail_buf linear_tail head_part
    tail_part marker itoa
chunks_shown = refl

render_long_example :
    Truncated 4 4 (flatten chunks) (render (write_all (new_head_tail_buf 4 4) chunks))
render_long_example = render_long 4 4 chunks (omega arith) (unfold flatten in omega arith)

abbrev small_opts : Opts
small_opts = record {
  timeout = pos 0;
  max_timeout = pos 0;
  head_bytes = pos 4;
  tail_bytes = pos 4;
  work_dir = [];
}

abbrev printed : Outcome
printed = record {
  stdout_writes = chunks;
  stderr_writes = [];
  deadline_exceeded = false;
  run_err = finished;
}

run_streams_example :
    let res = (run (λ _ _ _ _. printed) (codes "ls") [] small_opts).0 in
    Shows 4 4 chunks res.stdout res.stdout_total_bytes
    × Shows 4 4 [] res.stderr res.stderr_total_bytes
run_streams_example = run_streams (λ _ _ _ _. printed) (codes "ls") [] small_opts (omega arith)
