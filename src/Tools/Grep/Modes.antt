-- ===== src/Tools/Grep/Modes.antt =====
-- The files_with_matches and the count modes of grep agree, and the counts add up.
use gonesis.Prelude.{
  ℕ, zero, suc, ◌+◌, Text, false, List, [], ◌∷◌, ◌++◌, if◌then◌else◌, length, take, map, length-map,
  ◌≡◌, refl, sym, ap, ◌∙◌, arith, text_eq, codes, true, ok, text_eq_iff,
}
use gonesis.Search.{Match, Found}
use gonesis.Search.Walk.{in_set}
use gonesis.Search.Sort.{text_less, insert_stable, sort_stable}
use gonesis.Tools.Grep.{
  GrepFileCount, see_files, sort_strings, build_files_output, bump, count_matches, row_less,
  sort_rows, build_count_output, take_head, exceeds_head, mode_of, count_mode,
}

abbrev pub row_path : GrepFileCount → Text
row_path row = row.path

bump-paths :
    (path : Text) (rows : List GrepFileCount)
    → map row_path (bump path rows) ≡ (
        if in_set path (map row_path rows)
        then map row_path rows
        else map row_path rows ++ path ∷ [])
unfolding bump in_set
bump-paths path [] = refl
bump-paths path (row ∷ rows) = ground (arith, bump-paths path rows)

count_matches-paths :
    (ms : List Match) (rows : List GrepFileCount)
    → map row_path (count_matches ms rows) ≡ see_files ms (map row_path rows)
unfolding count_matches see_files
count_matches-paths [] rows = refl
count_matches-paths (m ∷ ms) rows =
    count_matches-paths ms (bump (m.path) rows) ∙ ap (see_files ms) (bump-paths (m.path) rows)

insert-paths :
    (row : GrepFileCount) (rows : List GrepFileCount)
    → map row_path (insert_stable row_less row rows)
      ≡ insert_stable text_less (row.path) (map row_path rows)
unfolding insert_stable
insert-paths row [] = refl
insert-paths row (r ∷ rows) = ground (arith, insert-paths row rows)

sort-paths :
    (rows : List GrepFileCount) → map row_path (sort_rows rows) ≡ sort_strings (map row_path rows)
unfolding sort_rows sort_strings sort_stable
sort-paths [] = refl
sort-paths (row ∷ rows) =
    insert-paths row (sort_stable row_less rows)
    ∙ ap (insert_stable text_less (row.path)) (sort-paths rows)

take-paths :
    (n : ℕ) (rows : List GrepFileCount) → map row_path (take n rows) ≡ take n (map row_path rows)
take-paths zero rows = refl
take-paths (suc n) [] = refl
take-paths (suc n) (row ∷ rows) = ap (λ l. row.path ∷ l) (take-paths n rows)

take_head-paths :
    (head : ℕ) (rows : List GrepFileCount)
    → map row_path (take_head head rows) ≡ take_head head (map row_path rows)
unfolding take_head
take_head-paths head rows = ground (arith, length-map rows row_path, take-paths head rows)

-- The sorted rows of the count mode name the sorted files of the other one.
rows-files :
    (ms : List Match)
    → map row_path (sort_rows (count_matches ms [])) ≡ sort_strings (see_files ms [])
rows-files ms = sort-paths (count_matches ms []) ∙ ap sort_strings (count_matches-paths ms [])

-- Of the same matches and with the same limit, the count mode of grep reports the files that the
-- files_with_matches mode reports, in the same order, with the same total, number returned and
-- truncation.
pub count-files_output :
    (res : Found) (head : ℕ)
    → let counted = build_count_output res head in
      let listed = build_files_output res head in
      (map row_path (counted.counts) ≡ listed.files)
      × (counted.total ≡ listed.total)
      × (counted.returned ≡ listed.returned)
      × (counted.truncated ≡ listed.truncated)
unfolding build_count_output build_files_output
count-files_output res head =
    let same = rows-files (res.matches) in
    let rows = sort_rows (count_matches (res.matches) []) in
    let files = take_head-paths head rows ∙ ap (take_head head) same in
    let total = sym (length-map rows row_path) ∙ ap length same in
    (
      files,
      total,
      sym (length-map (take_head head rows) row_path) ∙ ap length files,
      ap (exceeds_head head) total,
    )

-- The sum of the counts.
abbrev pub sum_counts : List GrepFileCount → ℕ
sum_counts [] = 0
sum_counts (row ∷ rows) = row.count + sum_counts rows

bump-sum :
    (path : Text) (rows : List GrepFileCount) → sum_counts (bump path rows) ≡ suc (sum_counts rows)
unfolding bump
bump-sum path [] = refl
bump-sum path (row ∷ rows) = ground (arith, bump-sum path rows)

count_matches-sum :
    (ms : List Match) (rows : List GrepFileCount)
    → sum_counts (count_matches ms rows) ≡ length ms + sum_counts rows
unfolding count_matches
count_matches-sum [] rows = omega arith
count_matches-sum (m ∷ ms) rows =
    omega (arith, count_matches-sum ms (bump (m.path) rows), bump-sum (m.path) rows)

insert-sum :
    (row : GrepFileCount) (rows : List GrepFileCount)
    → sum_counts (insert_stable row_less row rows) ≡ row.count + sum_counts rows
unfolding insert_stable
insert-sum row [] = refl
insert-sum row (r ∷ rows) = ground (arith, insert-sum row rows)

sort-sum : (rows : List GrepFileCount) → sum_counts (sort_rows rows) ≡ sum_counts rows
unfolding sort_rows sort_stable
sort-sum [] = refl
sort-sum (row ∷ rows) = omega (arith, insert-sum row (sort_stable row_less rows), sort-sum rows)

take_head_whole :
    (head : ℕ) (rows : List GrepFileCount)
    → exceeds_head head (length rows) ≡ false
    → take_head head rows ≡ rows
unfolding take_head
take_head_whole head rows h = rw h

-- Without truncation the counts of the count mode add up to the number of matches.
pub build_count_output-sum :
    (res : Found) (head : ℕ)
    → (build_count_output res head).truncated ≡ false
    → sum_counts ((build_count_output res head).counts) ≡ length (res.matches)
unfolding build_count_output take_head
build_count_output-sum res head h = omega (
  arith,
  sort-sum (count_matches (res.matches) []),
  count_matches-sum (res.matches) [],
  ap sum_counts (take_head_whole head (sort_rows (count_matches (res.matches) [])) h),
)

pub count_mode_of : (m : Text) → text_eq m (codes "count") ≡ true → mode_of m ≡ ok count_mode
unfolding mode_of
count_mode_of m h = ap mode_of ((text_eq_iff m (codes "count")).0 h) ∙ unfold text_eq in refl
