-- ===== src/Search/Results.antt =====
-- What the searches return: the sorted findings of every visible file, cut at the limit.
use gonesis.Prelude.{
  text_eq_sym, ℕ, zero, suc, ◌<◌, Text, Bool, true, false, Option, List, [], ◌++◌, ok, ◌>>=◌,
  bind-ok, pos, length, take, length-take, drop, take-append-drop, ◌≡◌, ◌↔◌, sym, ap, ◌∙◌, arith,
  inl, inr, min, ltb, Bool-cases, text_eq,
}
use mathlib.Core.List.{Perm}
use mathlib.Core.Path.{subst}
use gonesis.Filepath.{clean}
use gonesis.Search.{
  Options, Match, Found, Matchers, compile_pattern, build_skip_set, default_head_limit, limit_or,
  over, cap,
}
use gonesis.Search.Walk.{Node, Step, next, skip_dir, stop, Walking, walk}
use gonesis.Search.Visible.{Leaves, walk-Leaves, gather, visible_files}
use gonesis.Search.Sort.{
  sort_stable, length-sort_stable, perm-sort_stable, InOrder, sort_stable-InOrder, text_less_asym,
}
use gonesis.Search.Content.{
  content, content_from, walk_root_of, walk_result, file_matches, max_size_of, found_of, match_less,
}

-- What a walk returns is what its function collects from the visible files.
walk_result-gather :
    {A : Type 0} (done : ℕ → Bool) (files found : List A) (r : Step (Walking A))
    → Leaves done [] files r
    → walk_result r ≡ ok found
    → found ≡ files
unfolding walk_result
walk_result-gather done files found (next s) h e = ground (arith, h)
walk_result-gather done files found (skip_dir s) h e = absurd h
walk_result-gather done files found (stop s) h e = ground arith

module _ (lib : Matchers) (tree : Text → Option Node) (done : ℕ → Bool) (root : Text)
    (opts : Options) where
  -- The matches of every visible file, before they are sorted and capped.
  abbrev pub all_matches : Text → (Text → Bool) → List Match
  all_matches walk_root re =
      gather (file_matches lib re (clean root) (opts.glob) (max_size_of (opts.max_file_size)))
        (visible_files (build_skip_set (opts.skip_dirs)) walk_root (tree walk_root))

  content_from-found_of :
      (walk_root : Text) (re : Text → Bool) (found : Found)
      → content_from lib tree done root opts walk_root re ≡ ok found
      → found ≡ found_of (limit_or (opts.head_limit) default_head_limit) (all_matches walk_root re)
  unfolding content_from
  content_from-found_of walk_root re found h =
      let walked =
        walk done (build_skip_set (opts.skip_dirs)) walk_root
          (file_matches lib re (clean root) (opts.glob) (max_size_of (opts.max_file_size)))
          (tree walk_root) in
      let limit = limit_or (opts.head_limit) default_head_limit in
      let (matches, r, e) = bind-ok (walk_result walked) (λ ms. ok (found_of limit ms)) found h in
      let all : matches ≡ all_matches walk_root re =
        walk_result-gather done (all_matches walk_root re) matches walked
          (walk-Leaves done (build_skip_set (opts.skip_dirs)) walk_root
            (file_matches lib re (clean root) (opts.glob) (max_size_of (opts.max_file_size)))
            (tree walk_root))
          r in
      ground (arith, e, all)

  -- A result that is the sorted and capped list of all matches
  abbrev pub FoundFrom : Found → Type 0
  FoundFrom found =
      (walk_root : Text) × (re : Text → Bool) × (walk_root_of (clean root) (opts.path)
        ≡ ok walk_root)
      × (compile_pattern lib (opts.pattern) (opts.case_insensitive) ≡ ok re)
      × (found
          ≡ found_of (limit_or (opts.head_limit) default_head_limit) (all_matches walk_root re))

  after_guard :
      (found : Found)
      → walk_root_of (clean root) (opts.path) >>= (λ walk_root.
        compile_pattern lib (opts.pattern) (opts.case_insensitive)
        >>= (λ re. content_from lib tree done root opts walk_root re))
        ≡ ok found
      → FoundFrom found
  after_guard found h =
      let (walk_root, w, k) = bind-ok (walk_root_of (clean root) (opts.path)) _ found h in
      let (re, r, l) =
        bind-ok (compile_pattern lib (opts.pattern) (opts.case_insensitive)) _ found k in
      (walk_root, re, w, r, content_from-found_of walk_root re found l)

  -- What Content returns is the sorted and capped list of the matches in all visible files below
  -- the directory that it resolved.
  pub content-found_of :
      (found : Found) → content lib tree done root opts ≡ ok found → FoundFrom found
  unfolding content
  content-found_of found h = elim (Bool-cases (text_eq (opts.pattern) [])) [
    | inl e ↦ absurd (ground (arith, e))
    | inr e ↦ after_guard found (ground (arith, e))
  ]

match_less_asym : (m n : Match) → match_less m n ≡ true → match_less n m ≡ false
unfolding match_less
match_less_asym m n h = elim (Bool-cases (text_eq (m.path) (n.path))) [
  | inl e ↦
      let f : text_eq (n.path) (m.path) ≡ true = text_eq_sym (n.path) (m.path) ∙ e in
      ground (arith, e, f)
  | inr e ↦
      let f : text_eq (n.path) (m.path) ≡ false = text_eq_sym (n.path) (m.path) ∙ e in
      ground (arith, e, f, text_less_asym (m.path) (n.path))
]

truncated_iff :
    (n total kept : ℕ) → kept ≡ min (suc n) total → (ltb (suc n) total ≡ true) ↔ (kept < total)
truncated_iff n total kept h = ground (arith, h)

-- A result that is what a limit leaves of the matches in their order
abbrev pub Bounded : ℕ → List Match → Found → Type 0
Bounded limit matches found =
    (found.total ≡ length matches)
    × (length (found.matches) ≡ min limit (length matches))
    × ((found.truncated ≡ true) ↔ (length (found.matches) < found.total))
    × (rest : List Match) × Perm (found.matches ++ rest) matches
    × InOrder match_less (found.matches ++ rest)

-- Of all matches, Content counts every one, returns them in the order of path and line, no more
-- than a positive limit, and says that it cut the list exactly when some are left out.
pub found_of-bounds :
    (limit : ℕ) (matches : List Match) (less_than : 0 < limit)
    → Bounded limit matches (found_of (pos limit) matches)
unfolding found_of cap over
found_of-bounds zero matches h = absurd (omega arith)
found_of-bounds (suc n) matches h =
    let sorted = sort_stable match_less matches in
    let same = take-append-drop (suc n) sorted in
    (
      length-sort_stable match_less matches,
      length-take (suc n) sorted ∙ ap (min (suc n)) (length-sort_stable match_less matches),
      truncated_iff n (length sorted) (length (take (suc n) sorted)) (length-take (suc n) sorted),
      drop (suc n) sorted,
      subst (λ ms. Perm ms matches) (sym same) (perm-sort_stable match_less matches),
      subst (InOrder match_less) (sym same)
          (sort_stable-InOrder match_less match_less_asym matches),
    )
