-- ===== src/Auth/Tests.antt =====
-- A store on a file system with two files, and the theorems at it.
use gonesis.Prelude.{
  Bool-cases, text_eq_iff, inl, inr, ℕ, pos, Text, text_eq, codes, Option, true, none, some, List,
  [], ◌∷◌, Result, ok, ◌≡◌, ◌≢◌, ◌⊎◌, refl, sym, ap, ◌∙◌, arith,
}
use gonesis.Strconv.{format_int, parse_int}
use gonesis.Dict.{lookup}
use gonesis.Auth.{AuthData, Host, is_allowed, approved, persist, approve_by_otp}
use gonesis.Auth.Persist.{Files, persist-Replaced}
use gonesis.Auth.Approval.{approve_by_otp-asked, approve_by_otp_lem}

-- The store's file and one temporary file, with what they hold.
pub record Disk : Type 0 where
  pub target : Option (List ℕ)
  pub temp : Option (List ℕ)

-- The path of the store's file is empty here, and every other path is the temporary file's.
abbrev read_disk : Text → Disk → Option (List ℕ)
read_disk [] w = w.target
read_disk (c ∷ s) w = w.temp

abbrev write_disk : Text → List ℕ → Disk → Disk
write_disk [] raw w = record w { target = some raw }
write_disk (c ∷ s) raw w = record w { temp = some raw }

abbrev remove_disk : Text → Disk → Disk
remove_disk [] w = record w { target = none }
remove_disk (c ∷ s) w = record w { temp = none }

abbrev rename_disk : Text → Disk → Disk
rename_disk [] w = w
rename_disk (c ∷ s) w = record { target = w.temp; temp = none }

-- Every call succeeds; the encoding of the data is one byte.
abbrev disk_host : Host Disk
disk_host = record {
  marshal = λ d. ok (7 ∷ []);
  create_temp = λ w. (ok (1 ∷ []), w);
  write_file = λ tmp raw w. (none, write_disk tmp raw w);
  close_file = λ tmp w. (none, w);
  remove_file = remove_disk;
  rename_file = λ tmp to w. (none, rename_disk tmp w);
  rand_below = λ n w. (0, w);
}

abbrev empty_disk : Disk
empty_disk = record { target = none; temp = none }

write_disk_kept :
    (tmp : Text) (raw : List ℕ) (w : Disk)
    → tmp ≢ []
    → read_disk [] (write_disk tmp raw w) ≡ w.target
write_disk_kept [] raw w ne = absurd (ne refl)
write_disk_kept (c ∷ s) raw w ne = refl

write_disk_read :
    (tmp : Text) (raw : List ℕ) (w : Disk) → read_disk tmp (write_disk tmp raw w) ≡ some raw
write_disk_read [] raw w = refl
write_disk_read (c ∷ s) raw w = refl

remove_disk_kept : (tmp : Text) (w : Disk) → tmp ≢ [] → read_disk [] (remove_disk tmp w) ≡ w.target
remove_disk_kept [] w ne = absurd (ne refl)
remove_disk_kept (c ∷ s) w ne = refl

rename_disk_read : (tmp : Text) (w : Disk) → read_disk [] (rename_disk tmp w) ≡ read_disk tmp w
rename_disk_read [] w = refl
rename_disk_read (c ∷ s) w = refl

abbrev Step : Type 0
Step = Option Text × Disk

made_ne :
    (w w' : Disk) (tmp : Text)
    → ◌≡◌ {A = Result Text Text × Disk} (ok (1 ∷ []), w) (ok tmp, w')
    → tmp ≢ []
made_ne w w' tmp e empty =
    let made : ◌≡◌ {A = Result Text Text} (ok (1 ∷ [])) (ok tmp) =
      ap (λ (r : Result Text Text × Disk). r.0) e in
    cc

never_failed : (w w' : Disk) (msg : Text) → ◌≢◌ {A = Step} (none, w) (some msg, w')
never_failed w w' msg e =
    let same : ◌≡◌ {A = Option Text} none (some msg) = ap (λ (r : Step). r.0) e in cc

abbrev disk_files : Files disk_host []
disk_files = record {
  read = read_disk;
  temp_ne = λ w w' tmp e. made_ne w w' tmp e;
  create_kept = λ w. refl;
  write_kept = λ tmp raw w ne. write_disk_kept tmp raw w ne;
  write_ok =
      λ tmp raw w w' e. ap (λ (r : Step). read_disk tmp r.1) (sym e) ∙ write_disk_read tmp raw w;
  close_kept = λ tmp file w. refl;
  remove_kept = λ tmp w ne. remove_disk_kept tmp w ne;
  rename_ok = λ tmp w w' e. ap (λ (r : Step). read_disk [] r.1) (sym e) ∙ rename_disk_read tmp w;
  rename_failed = λ tmp msg w w' e. absurd (never_failed (rename_disk tmp w) w' msg e);
}

-- User 5 asks for a password on an empty store.
abbrev nobody : AuthData
nobody = record { allowed_users = []; pending_otps = [] }

abbrev asked : AuthData
asked = record { allowed_users = []; pending_otps = (codes "5", codes "AAAAAA") ∷ [] }

persist-Replaced_example :
    ((persist disk_host [] asked empty_disk).0 ≡ none
      → read_disk [] (persist disk_host [] asked empty_disk).1 ≡ some (7 ∷ []))
    × ((e : Text)
        → (persist disk_host [] asked empty_disk).0 ≡ some e
        → read_disk [] (persist disk_host [] asked empty_disk).1 ≡ none)
persist-Replaced_example = persist-Replaced disk_host [] disk_files asked (7 ∷ []) empty_disk refl

only :
    (key : Text) → lookup key asked.pending_otps ≡ some (codes "AAAAAA") → key ≡ format_int (pos 5)
unfolding lookup format_int
only key h = elim (Bool-cases (text_eq (codes "5") key)) [
  | inl e ↦ sym ((text_eq_iff (codes "5") key).0 e)
  | inr e ↦ absurd (none_found (rw e at h))
]
  where
    none_found : none ≢ some (codes "AAAAAA")
    none_found e = cc

pending_five : lookup (format_int (pos 5)) asked.pending_otps ≡ some (codes "AAAAAA")
unfolding lookup text_eq format_int
pending_five = refl

approve_by_otp_lem_example :
    let ((r, d'), w') = approve_by_otp disk_host [] (codes "AAAAAA") asked empty_disk in
    (is_allowed (pos 5) d' ≡ true)
    × (lookup (format_int (pos 5)) d'.pending_otps ≡ none)
    × ((persist disk_host [] (approved (pos 5) (format_int (pos 5)) asked) empty_disk).0 ≡ none
        → r ≡ ok (pos 5))
unfolding lookup
approve_by_otp_lem_example =
    approve_by_otp_lem disk_host [] (pos 5) (codes "AAAAAA") asked empty_disk (omega arith)
      (refl, tt) pending_five only

five_is_allowed :
    is_allowed (pos 5) (approve_by_otp disk_host [] (codes "AAAAAA") asked empty_disk).0.1 ≡ true
five_is_allowed =
    (approve_by_otp_lem disk_host [] (pos 5) (codes "AAAAAA") asked empty_disk (omega arith)
      (unfold lookup in (refl, tt)) pending_five only).0

approve_by_otp-asked_example :
    (is_allowed (pos 5) asked ≡ true)
    ⊎ ((key : Text) × (lookup key asked.pending_otps ≡ some (codes "AAAAAA"))
        × (parse_int key ≡ some (pos 5)))
unfolding lookup
approve_by_otp-asked_example =
    approve_by_otp-asked disk_host [] (codes "AAAAAA") asked empty_disk (pos 5) (refl, tt)
      five_is_allowed
