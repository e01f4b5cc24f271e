-- ===== src/Tools/Grep/Total.antt =====
-- The grep tool in its count mode, over the whole search.
use gonesis.Prelude.{
  ℕ, Text, codes, text_eq, Bool, true, false, Option, some, List, Result, ok, err, Option-cases,
  inl, inr, if◌then◌else◌, ◌++◌, ◌>>=◌, bind-ok, negsuc, length, ◌≡◌, ap, ◌∙◌, arith,
}
use gonesis.Prelude.{ℤ}
use mathlib.Core.Path.{subst}
use gonesis.Filepath.{clean}
use gonesis.Search.{Match, Found, SearchError, Matchers, limit_or, cap, compile_pattern}
use gonesis.Search.Walk.{Node}
use gonesis.Search.Sort.{length-sort_stable}
use gonesis.Search.Content.{content, walk_root_of, found_of, match_less}
use gonesis.Search.Results.{all_matches, content-found_of}
use gonesis.Tools.Grep.{
  SearchConfig, GrepInput, GrepOutput, GrepError, count_mode, head_of, search_head, search_options,
  searched, build_output, build_count_output, grep,
}
use gonesis.Tools.Grep.Modes.{sum_counts, build_count_output-sum, count_mode_of}

ok_inj : {A : Type 0} {a b : A} → ◌≡◌ {A = Result GrepError A} (ok a) (ok b) → a ≡ b
ok_inj h = ground (arith, h)

searched-ok : {A : Type 0} (r : Result SearchError A) (a : A) → searched r ≡ ok a → r ≡ ok a
searched-ok (ok b) a h = ground (arith, h)
searched-ok (err e) a h = ground (arith, h)

uncapped : (ms : List Match) → length ((found_of (negsuc 0) ms).matches) ≡ length ms
unfolding found_of cap
uncapped ms = length-sort_stable match_less ms

module _ (lib : Matchers) (tree : Text → Option Node) (done : ℕ → Bool) (work_dir : Text)
    (cfg : SearchConfig) (input : GrepInput) where
  -- The matches of all visible files, of which grep reports.
  abbrev every_match : Text → (Text → Bool) → List Match
  every_match = all_matches lib tree done work_dir (search_options cfg input (negsuc 0))

  -- What the library compiled: the pattern, under the flag that ignores case if that is asked for.
  abbrev pub Compiled : (Text → Bool) → Type 0
  Compiled re =
      lib.compile (if input.case_insensitive then codes "(?i)" ++ input.pattern else input.pattern)
      ≡ some re

  -- The counts of an output add up to the number of all matches of the compiled pattern.
  abbrev pub ReportsAll : GrepOutput → Type 0
  ReportsAll out =
      (walk_root : Text) × (re : Text → Bool) × (walk_root_of (clean work_dir) (input.path)
        ≡ ok walk_root)
      × Compiled re
      × (sum_counts (out.counts) ≡ length (every_match walk_root re))

  abbrev searched_for : ℤ → Result SearchError Found
  searched_for head = content lib tree done work_dir (search_options cfg input head)

  compile_pattern-some :
      (re : Text → Bool)
      → compile_pattern lib (input.pattern) (input.case_insensitive) ≡ ok re
      → Compiled re
  unfolding compile_pattern
  compile_pattern-some re h =
      let pattern =
        if input.case_insensitive then codes "(?i)" ++ input.pattern else input.pattern in
      elim (Option-cases (lib.compile pattern)) [
        | inl e ↦ absurd (ground (arith, e, h))
        | inr (f, e) ↦ ground (arith, e, h)
      ]

  count_total :
      (res : Found) (head : ℕ)
      → searched_for (negsuc 0) ≡ ok res
      → (build_count_output res head).truncated ≡ false
      → ReportsAll (build_count_output res head)
  unfolding limit_or
  count_total res head h cut =
      let (walk_root, re, w, r, e) =
        content-found_of lib tree done work_dir (search_options cfg input (negsuc 0)) res h in
      (
        walk_root,
        re,
        w,
        compile_pattern-some re r,
        build_count_output-sum res head cut
            ∙ ap (λ (f : Found). length (f.matches)) e
            ∙ uncapped (every_match walk_root re),
      )

  count_mode_total :
      (out : GrepOutput) (head : ℕ)
      → searched (searched_for (search_head count_mode head))
          >>= (λ res. ok (build_output count_mode res head))
        ≡ ok out
      → out.truncated ≡ false
      → ReportsAll out
  unfolding search_head build_output
  count_mode_total out head h cut =
      let (res, r, b) =
        bind-ok (searched (searched_for (negsuc 0))) (λ res. ok (build_count_output res head)) out
          h in
      let counted : build_count_output res head ≡ out = ok_inj b in
      subst ReportsAll counted (
        count_total res head (searched-ok (searched_for (negsuc 0)) res r)
          (ap (λ (o : GrepOutput). o.truncated) counted ∙ cut))

  -- In its count mode, when grep succeeds and truncates nothing, the counts that it returns add up
  -- to the number of matches in all visible files below the directory that it resolved, matches of
  -- what the library compiled from the pattern, under the flag (?i) exactly where case is ignored.
  pub grep-sum_counts :
      (out : GrepOutput)
      → text_eq (input.output_mode) (codes "count") ≡ true
      → grep lib tree done work_dir cfg input ≡ ok out
      → out.truncated ≡ false
      → ReportsAll out
  unfolding grep
  grep-sum_counts out m h cut =
      let head = head_of cfg (input.head_limit) in
      count_mode_total out head
        (subst
          (λ mode.
            mode >>= (λ md.
              searched (searched_for (search_head md head))
              >>= (λ res. ok (build_output md res head)))
            ≡ ok out)
          (count_mode_of (input.output_mode) m) h)
        cut
