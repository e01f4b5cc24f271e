-- ===== src/Auth.antt =====
-- pkg/telegram/auth/store.go: which Telegram users may talk to the agent, and the one-time passwords
-- of those who asked. The mutex makes each method one step. The file system, the JSON encoder and the
-- random source are parameters; they act on a world `W`.
pub mod Persist
pub mod Approval
mod Tests
use gonesis.Prelude.{
  ℕ, zero, suc, ℤ, int_eq, Text, codes, text_eq, Bool, true, false, ◌||◌, Option, none, some, List,
  [], ◌∷◌, ◌++◌, if◌then◌else◌, get_or, Result, ok, err,
}
use gonesis.Strconv.{format_int, parse_int}
use gonesis.Dict.{Dict, lookup, insert, remove}

-- `Data`, from user ids in decimal to passwords.
pub record AuthData : Type 0 where
  pub allowed_users : List ℤ
  pub pending_otps : Dict Text

pub data AuthError : Type 0 where
  invalid_otp : AuthError
  bad_user_id : Text → AuthError
  persist_failed : Text → AuthError

-- What the store calls: json.MarshalIndent, os.CreateTemp in the directory of the file, the writing
-- and closing of that file, os.Remove and os.Rename, and rand.Int below a bound. An error that is not
-- there is `none`.
pub record Host (W : Type 0) : Type 0 where
  pub marshal : AuthData → Result Text (List ℕ)
  pub create_temp : W → Result Text Text × W
  pub write_file : Text → List ℕ → W → Option Text × W
  pub close_file : Text → W → Option Text × W
  pub remove_file : Text → W → W
  pub rename_file : Text → Text → W → Option Text × W
  pub rand_below : ℕ → W → ℕ × W

-- `IsAllowed`
unfoldable pub contains_user : ℤ → List ℤ → Bool
contains_user u [] = false
contains_user u (v ∷ users) = int_eq v u || contains_user u users

abbrev pub is_allowed : ℤ → AuthData → Bool
is_allowed u d = contains_user u d.allowed_users

abbrev pub charset : Text
charset = codes "ABCDEFGHJKLMNPQRSTUVWXYZ23456789"

-- `delete` of the key and the user appended, as `ApproveByOTP` does before it persists.
abbrev pub approved : ℤ → Text → AuthData → AuthData
approved u key d = record {
  allowed_users = d.allowed_users ++ u ∷ [];
  pending_otps = remove key d.pending_otps;
}

-- The first key, in the order of the `range`, whose password is the given one.
unfoldable pub key_of : Text → Dict Text → Option Text
key_of otp [] = none
key_of otp ((key, v) ∷ m) = if text_eq v otp then some key else key_of otp m

-- What `ApproveByOTP` returns once the user is approved.
unfoldable pub persisted :
    {W : Type 0} → ℤ → AuthData → Option Text × W → (Result AuthError ℤ × AuthData) × W
persisted u d (none, w) = ((ok u, d), w)
persisted u d (some e, w) = ((err (persist_failed e), d), w)

module _ {W : Type 0} (host : Host W) where
  -- The characters of `generateOTP`, drawn one after the other.
  unfoldable pub draw : ℕ → W → Text × W
  draw zero w = ([], w)
  draw (suc n) w =
      let (i, w1) = host.rand_below 32 w in
      let (otp, w2) = draw n w1 in (get_or charset i 0 ∷ otp, w2)

  unfoldable pub generate_otp : W → Text × W
  generate_otp w = draw 6 w

module _ {W : Type 0} (host : Host W) (path : Text) where
  -- The steps of `persist` behind each other; a failed step removes the temporary file.
  unfoldable pub after_rename : Text → Option Text × W → Option Text × W
  after_rename tmp (none, w) = (none, w)
  after_rename tmp (some e, w) = (some e, host.remove_file tmp w)

  unfoldable pub after_close : Text → Option Text × W → Option Text × W
  after_close tmp (none, w) = after_rename tmp (host.rename_file tmp path w)
  after_close tmp (some e, w) = (some e, host.remove_file tmp w)

  unfoldable pub after_write : Text → Option Text × W → Option Text × W
  after_write tmp (none, w) = after_close tmp (host.close_file tmp w)
  after_write tmp (some e, w) = (some e, host.remove_file tmp (host.close_file tmp w).1)

  unfoldable pub after_create : List ℕ → Result Text Text × W → Option Text × W
  after_create raw (ok tmp, w) = after_write tmp (host.write_file tmp raw w)
  after_create raw (err e, w) = (some e, w)

  unfoldable pub persist_raw : Result Text (List ℕ) → W → Option Text × W
  persist_raw (ok raw) w = after_create raw (host.create_temp w)
  persist_raw (err e) w = (some e, w)

  -- `persist`; no error is `none`.
  unfoldable pub persist : AuthData → W → Option Text × W
  persist d w = persist_raw (host.marshal d) w

  -- `GetOrCreateOTP`; an error of `persist` is only logged.
  unfoldable pub get_or_create_otp : ℤ → AuthData → W → (Text × AuthData) × W
  get_or_create_otp u d w = elim (lookup (format_int u) d.pending_otps) [
    | some otp ↦ ((otp, d), w)
    | none ↦
        let (otp, w1) = generate_otp host w in
        let d1 : AuthData = record d { pending_otps = insert (format_int u) otp d.pending_otps } in
        ((otp, d1), (persist d1 w1).1)
  ]

  unfoldable pub approve_key : Text → AuthData → W → (Result AuthError ℤ × AuthData) × W
  approve_key key d w = elim (parse_int key) [
    | none ↦ ((err (bad_user_id key), d), w)
    | some u ↦ persisted u (approved u key d) (persist (approved u key d) w)
  ]

  -- `ApproveByOTP`
  unfoldable pub approve_by_otp : Text → AuthData → W → (Result AuthError ℤ × AuthData) × W
  approve_by_otp otp d w = elim (key_of otp d.pending_otps) [
    | none ↦ ((err invalid_otp, d), w)
    | some key ↦ approve_key key d w
  ]
