-- ===== src/Todo/Create.antt =====
-- What `Create` does on every branch, and that it keeps the list valid.
use gonesis.Prelude.{
  ℕ, suc, ◌+◌, Text, text_eq, true, false, List, [], ◌∷◌, ◌++◌, ◌≡◌, ◌≢◌, refl, ap, ap₂, ◌∙◌, sym,
  map, arith, All, All-append, length, append_assoc, append-nil, ok, err, inl, inr, ◌⊎◌, Bool-cases,
}
use mathlib.Core.List.{map-append}
use gonesis.Strings.{trim_space}
use gonesis.Strings.Trim.{trim_space_idem}
use gonesis.Strconv.{itoa}
use gonesis.Todo.{
  Item, TodoList, TodoError, no_items, blank_item, valid, is_blank, trim_all, add_item, add_items,
  create, add_trimmed, pending,
}
use gonesis.Todo.Invariant.{IsValid, IsClean, ids, numbers, numbers-add}

abbrev pub HasText : Text → Type 0
HasText c = is_blank (trim_space c) ≡ false

-- The items that `Create` appends: pending, with the ids from `k` on.
pub fresh : ℕ → ℕ → List Text → List Item
fresh now k [] = []
fresh now k (c ∷ cs) =
    record {
      id = itoa k;
      content = trim_space c;
      status = pending;
      created_at = now;
      updated_at = now;
    }
    ∷ fresh now (k + 1) cs

ids-fresh : (now k : ℕ) (cs : List Text) → ids (fresh now k cs) ≡ numbers k (length cs)
unfolding fresh numbers
ids-fresh now k [] = refl
ids-fresh now k (c ∷ cs) = ap (λ l. itoa k ∷ l) (ids-fresh now (k + 1) cs)

valid-pending : valid pending ≡ true
unfolding valid text_eq
valid-pending = refl

fresh-IsClean : (now k : ℕ) (cs : List Text) → All HasText cs → All IsClean (fresh now k cs)
unfolding fresh
fresh-IsClean now k [] h = tt
fresh-IsClean now k (c ∷ cs) h = (
  record { trimmed = trim_space_idem c; not_blank = h.0; known = valid-pending },
  fresh-IsClean now (k + 1) cs h.1,
)

-- The list behind a `Create` that succeeds.
abbrev pub extended : ℕ → List Text → TodoList → TodoList
extended now cs l = record {
  items = l.items ++ fresh now (l.next + 1) cs;
  next = l.next + length cs;
}

add_items_lem :
    (now : ℕ) (cs : List Text) (l : TodoList)
    → add_items now (map trim_space cs) l ≡ (numbers (l.next + 1) (length cs), extended now cs l)
unfolding add_items add_item fresh numbers
add_items_lem now [] l =
    ap₂ (λ is n. ([], record { items = is; next = n })) (sym (append-nil l.items)) (omega arith)
add_items_lem now (c ∷ cs) l =
    let (id, l') = add_item now (trim_space c) l in
    rw (add_items_lem now cs l') (
      ap₂ (λ is n. (numbers (l.next + 1) (suc (length cs)), record { items = is; next = n }))
        (append_assoc l.items _ (fresh now (l.next + 1 + 1) cs)) (omega arith))

trim_all-ok : (i : ℕ) (cs : List Text) → All HasText cs → trim_all i cs ≡ ok (map trim_space cs)
unfolding trim_all
trim_all-ok i [] h = refl
trim_all-ok i (c ∷ cs) h = ground (arith, h.0, trim_all-ok (i + 1) cs h.1)

trim_all-blank :
    (i : ℕ) (before : List Text) (c : Text) (behind : List Text)
    → All HasText before
    → is_blank (trim_space c) ≡ true
    → trim_all i (before ++ c ∷ behind) ≡ err (blank_item (i + length before))
unfolding trim_all
trim_all-blank i [] c behind h b = ground (arith, b)
trim_all-blank i (d ∷ before) c behind h b =
    ground (arith, h.0, trim_all-blank (i + 1) before c behind h.1 b)

create_ne :
    (now : ℕ) (cs : List Text) (l : TodoList)
    → cs ≢ []
    → create now cs l ≡ add_trimmed now (trim_all 0 cs) l
unfolding create
create_ne now [] l h = absurd (h refl)
create_ne now (c ∷ cs) l h = refl

-- Given at least one text and none of them blank, `Create` appends one pending item for each, in
-- order and trimmed, and returns their ids: the next decimal numbers.
pub create_succeeds :
    (now : ℕ) (cs : List Text) (l : TodoList)
    → cs ≢ []
    → All HasText cs
    → create now cs l ≡ (ok (numbers (l.next + 1) (length cs)), extended now cs l)
create_succeeds now cs l some_item h =
    create_ne now cs l some_item ∙ rw (trim_all-ok 0 cs h, add_items_lem now cs l)

not_empty : (before : List Text) (c : Text) (behind : List Text) → before ++ c ∷ behind ≢ []
not_empty [] c behind e = cc
not_empty (d ∷ before) c behind e = cc

-- `Create` refuses an empty call, and a call with a blank text, of which it names the first; then
-- the list stays as it was.
pub create_refuses :
    (now : ℕ) (before : List Text) (c : Text) (behind : List Text) (l : TodoList)
    → All HasText before
    → is_blank (trim_space c) ≡ true
    → (create now [] l ≡ (err no_items, l))
      × (create now (before ++ c ∷ behind) l ≡ (err (blank_item (length before)), l))
create_refuses now before c behind l h b = (
  unfold create in refl,
  create_ne now (before ++ c ∷ behind) l (not_empty before c behind)
      ∙ rw (trim_all-blank 0 before c behind h b) (ap (λ n. (err (blank_item n), l)) (omega arith)),
)

extended-IsValid :
    (now : ℕ) (cs : List Text) (l : TodoList)
    → All HasText cs
    → IsValid l
    → IsValid (extended now cs l)
extended-IsValid now cs l h v = record {
  numbered =
      map-append (λ it. it.id) l.items (fresh now (l.next + 1) cs)
      ∙ ap₂ ◌++◌ v.numbered
          (ids-fresh now (l.next + 1) cs ∙ ap (λ k. numbers k (length cs)) (omega arith))
      ∙ sym (numbers-add 1 l.next (length cs));
  clean = All-append IsClean l.items _ v.clean (fresh-IsClean now (l.next + 1) cs h);
}

trim_all_cases :
    (i : ℕ) (cs : List Text) → All HasText cs ⊎ ((e : TodoError) × (trim_all i cs ≡ err e))
unfolding trim_all
trim_all_cases i [] = inl tt
trim_all_cases i (c ∷ cs) = elim (Bool-cases (is_blank (trim_space c))) [
  | inl b ↦ inr (blank_item i, rw b)
  | inr t ↦ elim (trim_all_cases (i + 1) cs) [
    | inl h ↦ inl (t, h)
    | inr (e, h) ↦ inr (e, rw (t, h))
  ]
]

-- `Create` keeps the list valid, whatever it is given.
pub create-IsValid :
    (now : ℕ) (cs : List Text) (l : TodoList) → IsValid l → IsValid (create now cs l).1
create-IsValid now [] l v = unfold create in v
create-IsValid now (c ∷ cs) l v = elim (trim_all_cases 0 (c ∷ cs)) [
  | inl h ↦ rw (create_succeeds now (c ∷ cs) l (λ e. cc) h) (extended-IsValid now (c ∷ cs) l h v)
  | inr (e, h) ↦ unfold create in rw h v
]
