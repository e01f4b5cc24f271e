-- ===== src/Tools/Todo.antt =====
-- pkg/agent/tools/todo.go: the todo tools over the session's list (pkg/todo). `none` is a context
-- without a list.
use gonesis.Prelude.{
  true, false, ℕ, Text, text_eq, Option, none, some, List, [], ◌∷◌, if◌then◌else◌, Result, ok, err,
  map, Bool,
}
use gonesis.Todo.{Item, TodoList, TodoError, Status, create, update, snapshot}
use gonesis.Todo.Invariant.{IsValid}
use gonesis.Todo.Create.{create-IsValid}
use gonesis.Todo.Update.{update-IsValid}

-- todoSnapshotItem
pub record SnapshotItem : Type 0 where
  pub id : Text
  pub content : Text
  pub status : Text

pub data ToolError : Type 0 where
  not_available : ToolError
  id_is_required : ToolError
  todo_error : TodoError → ToolError

unfoldable pub snapshot_of : TodoList → List SnapshotItem
snapshot_of l =
    map (λ (it : Item). record { id = it.id; content = it.content; status = it.status })
      (snapshot l)

abbrev created :
    Result TodoError (List Text) → TodoList → Result ToolError (List Text × List SnapshotItem)
created (ok ids) l = ok (ids, snapshot_of l)
created (err e) l = err (todo_error e)

-- todoCreateTool
unfoldable pub todo_create :
    ℕ
    → List Text
    → Option TodoList
    → Result ToolError (List Text × List SnapshotItem) × Option TodoList
unfolding snapshot_of
todo_create now contents none = (err not_available, none)
todo_create now contents (some l) = let (r, l') = create now contents l in (created r l', some l')

-- The pointer to the content: empty means that it stays.
abbrev content_ptr : Text → Option Text
content_ptr [] = none
content_ptr (c ∷ s) = some (c ∷ s)

abbrev changed : Option TodoError → TodoList → Result ToolError (List SnapshotItem)
changed none l = ok (snapshot_of l)
changed (some e) l = err (todo_error e)

-- todoUpdateTool
unfoldable pub todo_update :
    ℕ
    → Text
    → Text
    → Status
    → Option TodoList
    → Result ToolError (List SnapshotItem) × Option TodoList
unfolding snapshot_of
todo_update now id content status none = (err not_available, none)
todo_update now id content status (some l) =
    let (e, l') = update now id (content_ptr content) status l in
    if text_eq id [] then (err id_is_required, some l) else (changed e l', some l')

-- A call of one of the tools, with the time at which it is made.
pub data TodoCall : Type 0 where
  create_call : ℕ → List Text → TodoCall
  update_call : ℕ → Text → Text → Status → TodoCall

-- The list that a call leaves
unfoldable pub after_call : TodoCall → Option TodoList → Option TodoList
unfolding todo_create todo_update
after_call (create_call now contents) l = (todo_create now contents l).1
after_call (update_call now id content status) l = (todo_update now id content status l).1

unfoldable pub after_calls : List TodoCall → Option TodoList → Option TodoList
unfolding after_call
after_calls [] l = l
after_calls (call ∷ calls) l = after_calls calls (after_call call l)

-- A context without a list, or with a valid one
abbrev pub Keeps : Option TodoList → Type 0
Keeps none = Unit
Keeps (some l) = IsValid l

branch-Keeps :
    (b : Bool) (r s : Result ToolError (List SnapshotItem)) (l m : Option TodoList)
    → Keeps l
    → Keeps m
    → let chosen : Result ToolError (List SnapshotItem) × Option TodoList =
        if b then (r, l) else (s, m) in
      Keeps (chosen.1)
branch-Keeps true r s l m hl hm = hl
branch-Keeps false r s l m hl hm = hm

after_call-Keeps : (call : TodoCall) (l : Option TodoList) → Keeps l → Keeps (after_call call l)
unfolding after_call
after_call-Keeps (create_call now contents) none h = tt
after_call-Keeps (create_call now contents) (some l) h = create-IsValid now contents l h
after_call-Keeps (update_call now id content status) none h = tt
after_call-Keeps (update_call now id content status) (some l) h =
    branch-Keeps (text_eq id []) _ _ (some l)
      (some ((update now id (content_ptr content) status l).1)) h
      (update-IsValid now id (content_ptr content) status l h)

-- Whatever the model calls the todo tools with, in any order, the session's list stays valid: its ids
-- are the decimal numbers from 1 on, every content is trimmed and not blank, and every status is one
-- of the four.
pub after_calls-Keeps :
    (calls : List TodoCall) (l : Option TodoList) → Keeps l → Keeps (after_calls calls l)
unfolding after_calls
after_calls-Keeps [] l h = h
after_calls-Keeps (call ∷ calls) l h =
    after_calls-Keeps calls (after_call call l) (after_call-Keeps call l h)
