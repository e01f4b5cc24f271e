-- ===== src/Auth/Approval.antt =====
-- Who is allowed, and by which password.
use gonesis.Prelude.{
  ℤ, pos, negsuc, int_eq, Text, text_eq, text_eq_iff, text_eq_refl, true, ◌||◌, Option, none, some,
  List, [], ◌∷◌, ◌++◌, ok, err, Option-cases, Bool-cases, ◌≡◌, ◌≢◌, ◌⊎◌, inl, inr, refl, sym, ap,
  ◌∙◌, arith,
}
use gonesis.Strconv.{format_int, parse_int}
use gonesis.Strconv.Laws.{IsInt64, parse_int-format_int}
use gonesis.Dict.{Dict, lookup, HasDistinctKeys}
use gonesis.Dict.Laws.{lookup-insert, lookup-remove}
use gonesis.Auth.{
  AuthData, invalid_otp, Host, contains_user, is_allowed, approved, key_of, persist, generate_otp,
  get_or_create_otp, persisted, approve_key, approve_by_otp,
}

int_eq_refl : (u : ℤ) → int_eq u u ≡ true
int_eq_refl (pos n) = ground arith
int_eq_refl (negsuc n) = ground arith

int_eq_sound : (u v : ℤ) → int_eq u v ≡ true → u ≡ v
int_eq_sound (pos m) (pos n) h = ap pos (ground (arith, h))
int_eq_sound (pos m) (negsuc n) h = cc
int_eq_sound (negsuc m) (pos n) h = cc
int_eq_sound (negsuc m) (negsuc n) h = ap negsuc (ground (arith, h))

contains_user-append :
    (v u : ℤ) (users : List ℤ)
    → contains_user v (users ++ u ∷ []) ≡ (contains_user v users || int_eq u v)
unfolding contains_user
contains_user-append v u [] = ground arith
contains_user-append v u (x ∷ users) = ground (arith, contains_user-append v u users)

-- The key found has the password, if keys are distinct.
key_of-lookup :
    (otp key : Text) (m : Dict Text)
    → HasDistinctKeys m
    → key_of otp m ≡ some key
    → lookup key m ≡ some otp
unfolding key_of lookup
key_of-lookup otp key [] d h = cc
key_of-lookup otp key ((k, v) ∷ m) d h = elim (Bool-cases (text_eq v otp)) [
  | inl e ↦
      let found : some k ≡ some key = rw e at h in
      let same : k ≡ key = cc in rw (sym same, text_eq_refl k) (ap some ((text_eq_iff v otp).0 e))
  | inr e ↦
      let behind : lookup key m ≡ some otp = key_of-lookup otp key m d.1 (rw e at h) in
      ground (arith, text_eq_iff k key, behind, d.0)
]

key_of-none : (otp key : Text) (m : Dict Text) → key_of otp m ≡ none → lookup key m ≢ some otp
unfolding key_of lookup
key_of-none otp key [] h e = cc
key_of-none otp key ((k, v) ∷ m) h e =
    ground (arith, text_eq_iff v otp, key_of-none otp key m, h, e)

module _ {W : Type 0} (host : Host W) (path : Text) where
  get_or_create_otp_hit :
      (u : ℤ) (otp : Text) (d : AuthData) (v : W)
      → lookup (format_int u) d.pending_otps ≡ some otp
      → get_or_create_otp host path u d v ≡ ((otp, d), v)
  unfolding get_or_create_otp
  get_or_create_otp_hit u otp d v found = rw (found, get_or_create_otp) refl

  -- The password that is returned is pending.
  get_or_create_otp-pending :
      (u : ℤ) (d : AuthData) (w : W)
      → let ((otp, d'), w') = get_or_create_otp host path u d w in
        lookup (format_int u) d'.pending_otps ≡ some otp
  unfolding get_or_create_otp
  get_or_create_otp-pending u d w = elim (Option-cases (lookup (format_int u) d.pending_otps)) [
    | inr (otp, found) ↦ rw (found, get_or_create_otp) found
    | inl none_yet ↦
        rw (none_yet, get_or_create_otp)
          (lookup-insert (format_int u) (format_int u) (generate_otp host w).0 d.pending_otps
            ∙ rw (text_eq_refl (format_int u)) refl)
  ]

  -- `GetOrCreateOTP` gives a user one password until it is used: a second call returns the same, and
  -- changes and writes nothing.
  pub get_or_create_otp-again :
      (u : ℤ) (d : AuthData) (w v : W)
      → let ((otp, d'), w') = get_or_create_otp host path u d w in
        get_or_create_otp host path u d' v ≡ ((otp, d'), v)
  get_or_create_otp-again u d w v = get_or_create_otp_hit u _ _ v (get_or_create_otp-pending u d w)

  -- Whoever `ApproveByOTP` allows was allowed before, or asked and was given this very password.
  pub approve_by_otp-asked :
      (otp : Text) (d : AuthData) (w : W) (v : ℤ)
      → HasDistinctKeys d.pending_otps
      → is_allowed v (approve_by_otp host path otp d w).0.1 ≡ true
      → (is_allowed v d ≡ true)
        ⊎ ((key : Text) × (lookup key d.pending_otps ≡ some otp) × (parse_int key ≡ some v))
  unfolding approve_by_otp approve_key persisted
  approve_by_otp-asked otp d w v distinct h = elim (Option-cases (key_of otp d.pending_otps)) [
    | inl e ↦ inl (rw (e, approve_by_otp) at h)
    | inr (key, e) ↦ elim (Option-cases (parse_int key)) [
      | inl bad ↦ inl (rw (e, bad, approve_by_otp, approve_key) at h)
      | inr (u, parsed) ↦ elim (Bool-cases (is_allowed v d)) [
        | inl was ↦ inl was
        | inr was_not ↦
            let now : (is_allowed v d || int_eq u v) ≡ true =
              sym (contains_user-append v u d.allowed_users)
              ∙ sym (data_of u (approved u key d) (persist host path (approved u key d) w))
              ∙ rw (e, parsed, approve_by_otp, approve_key) at h in
            let same : u ≡ v = int_eq_sound u v (rw was_not at now) in
            inr (key, key_of-lookup otp key d.pending_otps distinct e, parsed ∙ ap some same)
      ]
    ]
  ]
    where
      data_of :
          (u : ℤ) (d' : AuthData) (r : Option Text × W)
          → is_allowed v (persisted u d' r).0.1 ≡ is_allowed v d'
      data_of u d' (none, w') = refl
      data_of u d' (some e, w') = refl

  -- A password that no pending user has is refused, and nothing changes.
  pub approve_by_otp-unknown :
      (otp : Text) (d : AuthData) (w : W)
      → HasDistinctKeys d.pending_otps
      → ((key : Text) → lookup key d.pending_otps ≢ some otp)
      → approve_by_otp host path otp d w ≡ ((err invalid_otp, d), w)
  unfolding approve_by_otp
  approve_by_otp-unknown otp d w distinct unknown =
      elim (Option-cases (key_of otp d.pending_otps)) [
        | inl e ↦ rw (e, approve_by_otp) refl
        | inr (key, e) ↦ absurd (unknown key (key_of-lookup otp key d.pending_otps distinct e))
      ]

  -- The user whose password it is, and nobody else's, is approved by it: the user is allowed in
  -- memory and no longer pending, and the call returns the user if the new state could be written.
  pub approve_by_otp_lem :
      (u : ℤ) (otp : Text) (d : AuthData) (w : W)
      → IsInt64 u
      → HasDistinctKeys d.pending_otps
      → lookup (format_int u) d.pending_otps ≡ some otp
      → ((key : Text) → lookup key d.pending_otps ≡ some otp → key ≡ format_int u)
      → let ((r, d'), w') = approve_by_otp host path otp d w in
        (is_allowed u d' ≡ true)
        × (lookup (format_int u) d'.pending_otps ≡ none)
        × ((persist host path (approved u (format_int u) d) w).0 ≡ none → r ≡ ok u)
  unfolding approve_by_otp approve_key persisted
  approve_by_otp_lem u otp d w in_range distinct pending only =
      elim (Option-cases (key_of otp d.pending_otps)) [
        | inl e ↦ absurd (key_of-none otp (format_int u) d.pending_otps e pending)
        | inr (key, e) ↦
            let same : key ≡ format_int u =
              only key (key_of-lookup otp key d.pending_otps distinct e) in
            let found : key_of otp d.pending_otps ≡ some (format_int u) = e ∙ ap some same in
            rw (found, parse_int-format_int u in_range, approve_by_otp, approve_key)
              (result (persist host path (approved u (format_int u) d) w))
      ]
    where
      d' : AuthData
      d' = approved u (format_int u) d

      allowed : is_allowed u d' ≡ true
      allowed = contains_user-append u u d.allowed_users ∙ ground (arith, int_eq_refl u)

      gone : lookup (format_int u) d'.pending_otps ≡ none
      gone =
          lookup-remove (format_int u) (format_int u) d.pending_otps
          ∙ rw (text_eq_refl (format_int u)) refl

      result :
          (r : Option Text × W)
          → (is_allowed u (persisted u d' r).0.1 ≡ true)
            × (lookup (format_int u) (persisted u d' r).0.1.pending_otps ≡ none)
            × (r.0 ≡ none → (persisted u d' r).0.0 ≡ ok u)
      result (none, w') = (allowed, gone, λ e. refl)
      result (some msg, w') = (allowed, gone, λ e. cc)
