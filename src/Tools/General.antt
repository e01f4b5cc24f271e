-- ===== src/Tools/General.antt =====
-- The tools that mostly ask another part: pkg/agent/tools/skill.go, telegram.go, inform.go and
-- fetch_url of general.go.
use gonesis.Prelude.{
  ℕ, Text, codes, ◌||◌, Option, none, some, List, [], ◌∷◌, ◌++◌, if◌then◌else◌, Result, ok, err,
  take, ℤ, pos,
}
use gonesis.Auth.{AuthError}
use gonesis.Strconv.{format_int}
use gonesis.Strings.{trim_space, has_prefix}
use gonesis.Skill.{Skill, SkillError, Yaml, Files, load, load_all}

pub record SkillSummary : Type 0 where
  pub name : Text
  pub description : Text
  pub tags : List Text

unfoldable pub summaries : List Skill → List SkillSummary
summaries [] = []
summaries (s ∷ skills) =
    record { name = s.name; description = s.description; tags = s.tags } ∷ summaries skills

pub data ReadSkillError : Type 0 where
  name_required : ReadSkillError
  loading_skill : Text → SkillError → ReadSkillError

module _ {W : Type 0} (lib : Yaml) (files : Files W) (skills_dir : Text) where
  unfoldable pub list_skills : W → List SkillSummary
  unfolding summaries load_all
  list_skills w = summaries ((load_all lib files skills_dir w).0)

  unfoldable pub read_skill : Text → W → Result ReadSkillError (Text × Text)
  unfolding load trim_space
  read_skill name w = elim (trim_space name) [
    | [] ↦ err name_required
    | c ∷ s ↦ elim (load lib files skills_dir name w) [
      | err e ↦ err (loading_skill name e)
      | ok skill ↦ ok (skill.name, skill.content)
    ]
  ]

-- inform_user; `none` is a context without an inform function.
unfoldable pub inform_user : {W : Type 0} → Option (Text → W → W) → Text → W → W
inform_user none message w = w
inform_user (some inform) message w = inform message w

abbrev max_fetch_bytes : ℕ
max_fetch_bytes = 524_288

unfoldable pub full_url : Text → Text
unfolding has_prefix
full_url u =
    if has_prefix (codes "http://") u || has_prefix (codes "https://") u
    then u
    else codes "https://" ++ u

pub data FetchError : Type 0 where
  url_required : FetchError
  request_failed : Text → FetchError

-- fetch_url. The request, with its timeout, gives a status and a body of bytes, or an error whose text
-- says which step failed.
unfoldable pub fetch_url :
    {W : Type 0}
    → (Text → W → Result Text (ℕ × List ℕ) × W)
    → Text
    → W
    → Result FetchError (ℕ × List ℕ) × W
unfolding full_url trim_space
fetch_url request url w = elim (trim_space url) [
  | [] ↦ (err url_required, w)
  | c ∷ u ↦
      let (r, w') = request (full_url (c ∷ u)) w in
      elim r [
        | err e ↦ (err (request_failed e), w')
        | ok (status, body) ↦ (ok (status, take max_fetch_bytes body), w')
      ]
]

-- What approve_telegram_user makes of the result of ApproveByOTP
unfoldable pub approve_output : Result AuthError ℤ → ℤ × Text
unfolding format_int
approve_output (err e) = (pos 0, codes "Invalid OTP")
approve_output (ok user_id) =
    (user_id, codes "User " ++ (format_int user_id ++ codes " approved successfully"))
