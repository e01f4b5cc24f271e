-- ===== src/Todo/Update.antt =====
-- What `Update` does on every branch, and that it keeps the list valid.
use gonesis.Prelude.{
  ℕ, Text, text_eq, text_eq_iff, text_eq_ne, Option, none, some, List, [], ◌∷◌, ◌++◌, ◌≡◌, ◌≢◌,
  refl, ap, ◌∙◌, arith, All, Distinct, middle_Distinct, inl, inr, ◌⊎◌, Bool-cases,
}
use mathlib.Core.List.{map-append}
use mathlib.Core.Path.{subst}
use gonesis.Strings.Trim.{trim_space_idem}
use gonesis.Todo.{
  Item, TodoList, TodoError, Status, updated, update_first, check_update, store_update,
  unless_error, update,
}
use gonesis.Todo.Invariant.{IsValid, IsClean, ids, ids-Distinct}

store_update_error :
    (id : Text) (l : TodoList) (e : TodoError) (o : Option TodoError) (r : Option (List Item))
    → (unless_error o (store_update id r l) l).0 ≡ some e
    → (unless_error o (store_update id r l) l).1 ≡ l
store_update_error id l e (some x) r h = refl
store_update_error id l e none none h = refl
store_update_error id l e none (some items) h = cc

-- An error of `Update` leaves the list as it was.
pub update_error :
    (now : ℕ) (id : Text) (content : Option Text) (status : Status) (l : TodoList) (e : TodoError)
    → (update now id content status l).0 ≡ some e
    → (update now id content status l).1 ≡ l
unfolding update
update_error now id content status l e h =
    store_update_error id l e (check_update content status)
      (update_first now id content status l.items) h

module _ (now : ℕ) (id : Text) (content : Option Text) (status : Status) where
  update_first_lem :
      (before : List Item) (it : Item) (behind : List Item)
      → All (λ x. x ≢ id) (ids before)
      → it.id ≡ id
      → update_first now id content status (before ++ it ∷ behind)
        ≡ some (before ++ updated now content status it ∷ behind)
  unfolding update_first
  update_first_lem [] it behind h e = rw ((text_eq_iff it.id id).1 e)
  update_first_lem (x ∷ before) it behind h e =
      rw (text_eq_ne x.id id h.0, update_first_lem before it behind h.1 e)

  update_first-none :
      (items : List Item)
      → All (λ x. x ≢ id) (ids items)
      → update_first now id content status items ≡ none
  unfolding update_first
  update_first-none [] h = refl
  update_first-none (x ∷ items) h = rw (text_eq_ne x.id id h.0, update_first-none items h.1)

-- `Update` of a valid list with fields that pass its tests changes the item with the id, in its place, and no other.
pub update_found :
    (now : ℕ) (content : Option Text) (status : Status) (l : TodoList) (before : List Item)
    (it : Item) (behind : List Item)
    → IsValid l
    → l.items ≡ before ++ it ∷ behind
    → check_update content status ≡ none
    → update now it.id content status l
      ≡ (none, record { items = before ++ updated now content status it ∷ behind; next = l.next })
unfolding update
update_found now content status l before it behind v e c =
    rw (c, e, update_first_lem now it.id content status before it behind others refl)
  where
    split_ids : ids l.items ≡ ids before ++ it.id ∷ ids behind
    split_ids = ap ids e ∙ map-append (λ x. x.id) before (it ∷ behind)

    others : All (λ x. x ≢ it.id) (ids before)
    others =
        middle_Distinct (ids before) it.id (ids behind)
          (subst Distinct split_ids (ids-Distinct l v))

-- `Update` of an id that no item has is an error, whatever the fields, and so is one whose fields do
-- not pass its tests.
pub update_refuses :
    (now : ℕ) (id : Text) (content : Option Text) (status : Status) (l : TodoList)
    → All (λ x. x ≢ id) (ids l.items) ⊎ (check_update content status ≢ none)
    → (update now id content status l).0 ≢ none
unfolding update
update_refuses now id content status l (inl absent) e =
    refused (check_update content status)
      (rw (update_first-none now id content status l.items absent) at e)
  where
    refused : (o : Option TodoError) → (unless_error o (store_update id none l) l).0 ≡ none → ⊥
    refused none p = cc
    refused (some x) p = cc
update_refuses now id content status l (inr bad) e = bad (passed (check_update content status) e)
  where
    passed :
        (o : Option TodoError)
        → (unless_error o (store_update id (update_first now id content status l.items) l) l).0
          ≡ none
        → o ≡ none
    passed none p = refl
    passed (some x) p = cc

updated-IsClean :
    (now : ℕ) (content : Option Text) (status : Status) (it : Item)
    → check_update content status ≡ none
    → IsClean it
    → IsClean (updated now content status it)
unfolding check_update updated
updated-IsClean now none [] it c v = ground arith
updated-IsClean now none (d ∷ s) it c v = ground arith
updated-IsClean now (some t) [] it c v = ground (arith, trim_space_idem t)
updated-IsClean now (some t) (d ∷ s) it c v = ground (arith, trim_space_idem t)

-- The ids stay, and clean items stay clean.
record KeepsItems (old new : List Item) : Type 0 where
  same_ids : ids new ≡ ids old
  still_clean : All IsClean old → All IsClean new

abbrev KeepsFound : List Item → Option (List Item) → Type 0
KeepsFound old none = Unit
KeepsFound old (some new) = KeepsItems old new

KeepsFound-cons :
    (x : Item) (items : List Item) (o : Option (List Item))
    → KeepsFound items o
    → KeepsFound (x ∷ items) (elim o [ none ↦ none | some r ↦ some (x ∷ r) ])
KeepsFound-cons x items none h = tt
KeepsFound-cons x items (some r) h = record {
  same_ids = ap (λ l. x.id ∷ l) h.same_ids;
  still_clean = λ v. (v.0, h.still_clean v.1);
}

update_first-KeepsFound :
    (now : ℕ) (id : Text) (content : Option Text) (status : Status) (items : List Item)
    → check_update content status ≡ none
    → KeepsFound items (update_first now id content status items)
unfolding update_first updated
update_first-KeepsFound now id content status [] c = tt
update_first-KeepsFound now id content status (x ∷ items) c = elim (Bool-cases (text_eq x.id id)) [
  | inl found ↦ rw found (record {
    same_ids = refl;
    still_clean = λ v. (updated-IsClean now content status x c v.0, v.1);
  })
  | inr other ↦ rw other (
      KeepsFound-cons x items (update_first now id content status items)
        (update_first-KeepsFound now id content status items c))
]

-- `Update` keeps the list valid, whatever it is given.
pub update-IsValid :
    (now : ℕ) (id : Text) (content : Option Text) (status : Status) (l : TodoList)
    → IsValid l
    → IsValid (update now id content status l).1
unfolding update
update-IsValid now id content status l v =
    go (check_update content status) (update_first now id content status l.items)
      (λ c. update_first-KeepsFound now id content status l.items c)
  where
    go :
        (o : Option TodoError) (r : Option (List Item))
        → (o ≡ none → KeepsFound l.items r)
        → IsValid (unless_error o (store_update id r l) l).1
    go (some e) r k = v
    go none none k = v
    go none (some items) k = record {
      numbered = (k refl).same_ids ∙ v.numbered;
      clean = (k refl).still_clean v.clean;
    }
