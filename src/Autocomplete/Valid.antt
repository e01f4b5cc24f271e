-- ===== src/Autocomplete/Valid.antt =====
-- The highlighted entry is always one of the list.
use native.Mathlib.Nat.{mod-eq_of_lt, mod-eq-sub-mod, mod_self}
use native.Mathlib.Decide.{dec_lt}
use gonesis.Prelude.{
  ℕ, zero, suc, ◌+◌, ◌-◌, ◌%◌, ◌<◌, Text, codes, true, false, not, ◌||◌, some, List, [], ◌∷◌, ◌++◌,
  if◌then◌else◌, leb, length, get_elem?, ◌≡◌, ◌≢◌, inl, inr, refl, ap, ◌∙◌, arith, Bool-cases,
}
use gonesis.Strings.{has_prefix, contains}
use gonesis.Autocomplete.{
  CommandInfo, Autocomplete, new_autocomplete, is_some, select, update, move_down, move_up,
  completion, complete,
}

-- A list with entries has the highlighted one.
abbrev pub IsValid : Autocomplete → Type 0
IsValid a = is_some a.matches ≡ true → a.selected < length a.matches

is_some-length : (cs : List CommandInfo) → is_some cs ≡ true → 0 < length cs
unfolding is_some
is_some-length [] h = ground arith
is_some-length (c ∷ cs) h = omega arith

is_some-false : (cs : List CommandInfo) → is_some cs ≡ false → is_some cs ≢ true
is_some-false cs e h = ground (arith, e, h)

get_elem?_in :
    (cs : List CommandInfo) (i : ℕ) → i < length cs → (c : CommandInfo) × (get_elem? cs i ≡ some c)
get_elem?_in [] i h = absurd (omega arith)
get_elem?_in (c ∷ cs) zero h = (c, refl)
get_elem?_in (c ∷ cs) (suc i) h = get_elem?_in cs i (omega arith)

kept_in_range : (n i : ℕ) → 0 < n → (if leb n i then 0 else i) < n
kept_in_range n i h = ground arith

update-IsValid :
    (to_lower : Text → Text) (input : Text) (a : Autocomplete) → IsValid (update to_lower input a)
unfolding update select
update-IsValid to_lower input a =
    elim (Bool-cases (not (has_prefix (codes "/") input) || contains 32 input)) [
      | inl e ↦ rw (e, update) (λ h. absurd (is_some-false [] (unfold is_some in refl) h))
      | inr e ↦ rw (e, update) (λ h. kept_in_range _ _ (is_some-length _ h))
    ]

move_down-IsValid : (a : Autocomplete) → IsValid (move_down a)
unfolding move_down
move_down-IsValid a = elim (Bool-cases (is_some a.matches)) [
  | inl e ↦ rw (e, move_down) (λ h. let some_match = is_some-length a.matches e in ground arith)
  | inr e ↦ rw (e, move_down) (λ h. absurd (is_some-false a.matches e h))
]

move_up-IsValid : (a : Autocomplete) → IsValid (move_up a)
unfolding move_up
move_up-IsValid a = elim (Bool-cases (is_some a.matches)) [
  | inl e ↦ rw (e, move_up) (λ h. let some_match = is_some-length a.matches e in ground arith)
  | inr e ↦ rw (e, move_up) (λ h. absurd (is_some-false a.matches e h))
]

complete_in_range : (a : Autocomplete) → IsValid a → (t : Text) × (complete a ≡ some t)
unfolding complete completion
complete_in_range a v = elim (Bool-cases (not a.visible || not (is_some a.matches))) [
  | inl e ↦ ([], rw (e, complete) refl)
  | inr e ↦
      let (c, found) = get_elem?_in a.matches a.selected (v (ground (arith, e))) in
      (47 ∷ c.name ++ 32 ∷ [], rw (e, found, complete, completion) refl)
]

-- What the user does: type, or move the selection.
pub data Key : Type 0 where
  typed : Text → Key
  up down : Key

unfoldable pub press : (Text → Text) → Key → Autocomplete → Autocomplete
press to_lower (typed input) a = update to_lower input a
press to_lower up a = move_up a
press to_lower down a = move_down a

unfoldable pub press_all : (Text → Text) → List Key → Autocomplete → Autocomplete
press_all to_lower [] a = a
press_all to_lower (k ∷ keys) a = press_all to_lower keys (press to_lower k a)

press-IsValid : (to_lower : Text → Text) (k : Key) (a : Autocomplete) → IsValid (press to_lower k a)
unfolding press
press-IsValid to_lower (typed input) a = update-IsValid to_lower input a
press-IsValid to_lower up a = move_up-IsValid a
press-IsValid to_lower down a = move_down-IsValid a

press_all-IsValid :
    (to_lower : Text → Text) (keys : List Key) (a : Autocomplete)
    → IsValid a
    → IsValid (press_all to_lower keys a)
unfolding press_all
press_all-IsValid to_lower [] a v = v
press_all-IsValid to_lower (k ∷ keys) a v =
    press_all-IsValid to_lower keys (press to_lower k a) (press-IsValid to_lower k a)

-- After any typing and moving, `Complete` returns a text: its index is never out of range.
pub complete-press_all :
    (to_lower : Text → Text) (commands : List CommandInfo) (keys : List Key)
    → (t : Text) × (complete (press_all to_lower keys (new_autocomplete commands)) ≡ some t)
unfolding is_some
complete-press_all to_lower commands keys =
    complete_in_range _ (press_all-IsValid to_lower keys (new_autocomplete commands) (λ h. cc))

wraps : (i n : ℕ) → i < n → ((i + 1) % n + n - 1) % n ≡ i
wraps i n h = elim (dec_lt (i + 1) n) [
  | yes inner ↦
      let here : (i + 1) % n ≡ i + 1 = mod-eq_of_lt inner in
      let past : (i + n) % n ≡ (i + n - n) % n = mod-eq-sub-mod {n = i + n} {m = n} (omega arith) in
      let back : (i + n - n) % n ≡ i + n - n = mod-eq_of_lt {n = i + n - n} {m = n} (omega arith) in
      ap (λ k. (k + n - 1) % n) here
      ∙ ap (λ k. k % n) {x = i + 1 + n - 1} {y = i + n} (omega arith)
      ∙ past
      ∙ back
      ∙ omega arith
  | no last ↦
      let whole : (i + 1) % n ≡ 0 =
        ap (λ k. k % n) {x = i + 1} {y = n} (omega arith) ∙ mod_self n in
      let back : (n - 1) % n ≡ n - 1 = mod-eq_of_lt {n = n - 1} {m = n} (omega arith) in
      ap (λ k. (k + n - 1) % n) whole
      ∙ ap (λ k. k % n) {x = 0 + n - 1} {y = n - 1} (omega arith)
      ∙ back
      ∙ omega arith
]

-- Moving up undoes moving down, if the highlighted index is within the matches.
pub move_up-move_down :
    (a : Autocomplete) → a.selected < length a.matches → move_up (move_down a) ≡ a
unfolding move_up move_down
move_up-move_down a h = elim (Bool-cases (is_some a.matches)) [
  | inl e ↦
      rw (e, move_down)
        (rw (e, move_up)
          (ap (λ i. record a { selected = i }) (wraps a.selected (length a.matches) h)))
  | inr e ↦ rw (e, move_down) (rw (e, move_up) refl)
]
