-- ===== src/Todo/Tests.antt =====
-- Concrete lists, and the theorems at inputs that meet their hypotheses.
use gonesis.Prelude.{codes, text_eq, none, [], ◌∷◌, ◌≡◌, refl, ok}
use gonesis.Strings.{trim_space}
use gonesis.Strconv.{itoa}
use gonesis.Todo.{
  Item, TodoList, new, pending, completed, valid, trim_all, add_items, add_item, create, update,
  updated, update_first, check_update, render_markdown,
}
use gonesis.Todo.Invariant.{IsValid, IsClean, numbers}
use gonesis.Todo.Update.{update_found}

abbrev plan : Item
plan = record {
  id = codes "1";
  content = codes "plan";
  status = pending;
  created_at = 5;
  updated_at = 5;
}

abbrev ship : Item
ship = record {
  id = codes "2";
  content = codes "ship";
  status = pending;
  created_at = 5;
  updated_at = 5;
}

abbrev two : TodoList
two = record { items = plan ∷ ship ∷ []; next = 2 }

plan-IsClean : IsClean plan
unfolding trim_space valid text_eq
plan-IsClean = record { trimmed = refl; not_blank = refl; known = refl }

ship-IsClean : IsClean ship
unfolding trim_space valid text_eq
ship-IsClean = record { trimmed = refl; not_blank = refl; known = refl }

two-IsValid : IsValid two
unfolding numbers itoa
two-IsValid = record { numbered = refl; clean = (plan-IsClean, (ship-IsClean, tt)) }

first_two :
    create 5 (codes " plan" ∷ codes "ship\t" ∷ []) new ≡ (ok (codes "1" ∷ codes "2" ∷ []), two)
unfolding create trim_all trim_space add_items add_item itoa
first_two = refl

reminder_two :
    render_markdown (update 9 (codes "1") none completed two).1 ≡ codes "- [x] plan\n- [ ] ship"
unfolding update update_first updated check_update valid text_eq render_markdown
reminder_two = refl

completed_passes : check_update none completed ≡ none
unfolding check_update valid text_eq
completed_passes = refl

update_found_example :
    update 7 (codes "2") none completed two
    ≡ (none, record { items = plan ∷ updated 7 none completed ship ∷ []; next = 2 })
update_found_example =
    update_found 7 none completed two (plan ∷ []) ship [] two-IsValid refl completed_passes
