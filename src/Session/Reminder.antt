-- ===== src/Session/Reminder.antt =====
-- Taking the reminder out again gives back the messages as they were.
use gonesis.Prelude.{
  ℕ, zero, suc, Text, Option, none, some, List, [], ◌∷◌, ◌++◌, set, get_elem?, ◌≡◌, refl, arith, ap,
  Option-cases, inl, inr,
}
use gonesis.Provider.{Message}
use gonesis.Session.{with_reminder, remind_at, remind, apply_reminder, strip_reminder, last_user}

set-set {ℓ} :
    {A : Type ℓ} (xs ys : List A) (i : ℕ) (x y : A)
    → get_elem? xs i ≡ some x
    → set (set xs i y ++ ys) i x ≡ xs ++ ys
set-set [] ys i x y h = cc
set-set (z ∷ xs) ys zero x y h = cc
set-set (z ∷ xs) ys (suc i) x y h = ap (λ l. z ∷ l) (set-set xs ys i x y h)

strip-remind_at :
    (reminder : Text) (i : Option ℕ) (messages new : List Message)
    → let (transient, j) = remind_at reminder i messages in
      strip_reminder (transient ++ new) messages j ≡ messages ++ new
unfolding remind_at strip_reminder
strip-remind_at reminder none messages new = refl
strip-remind_at reminder (some i) messages new = elim (Option-cases (get_elem? messages i)) [
  | inl out ↦ ground (arith, out)
  | inr (m, e) ↦ ground (arith, e, set-set messages new i m (with_reminder reminder m) e)
]

-- Whatever a run appends to the messages that carry the reminder, stripping leaves the messages as
-- they were, followed by what was appended.
pub strip-apply_reminder :
    {W : Type 0} (messages new : List Message) (reminder : Option (W → Text)) (w : W)
    → let (transient, i) = apply_reminder messages reminder w in
      strip_reminder (transient ++ new) messages i ≡ messages ++ new
unfolding apply_reminder remind
strip-apply_reminder messages new none w = unfold strip_reminder in refl
strip-apply_reminder messages new (some reminder) w = go (reminder w)
  where
    go :
        (text : Text)
        → let (transient, i) = remind text messages in
          strip_reminder (transient ++ new) messages i ≡ messages ++ new
    go [] = unfold strip_reminder in refl
    go (c ∷ text) = strip-remind_at (c ∷ text) (last_user messages) messages new
