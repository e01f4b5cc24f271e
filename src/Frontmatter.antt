-- ===== src/Frontmatter.antt =====
-- A markdown file with a YAML frontmatter, as cron jobs (pkg/cron) and skills (pkg/skill) have it:
-- the opening line `---`, the frontmatter, and the first line after it that starts with `---`.
pub mod Fence
use gonesis.Prelude.{
  ℕ, ◌+◌, Text, codes, Bool, true, false, Option, none, some, ◌++◌, Result, ok, err, take, drop,
  if◌then◌else◌, not,
}
use gonesis.Strings.{has_prefix, index}

abbrev pub opening : Text
opening = codes "---\n"

abbrev pub fence : Text
fence = codes "\n---"

pub data FrontmatterError : Type 0 where
  missing_opening : FrontmatterError
  missing_closing : FrontmatterError

-- The frontmatter, and what follows it from the newline before its closing line on.
unfoldable pub split_frontmatter : Text → Result FrontmatterError (Text × Text)
unfolding has_prefix index
split_frontmatter content =
    let rest = drop 4 content in
    if not (has_prefix opening content) then err missing_opening else elim (index fence rest) [
      | none ↦ err missing_closing
      | some i ↦ ok (take i rest, drop i rest)
    ]
