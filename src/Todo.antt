-- ===== src/Todo.antt =====
-- pkg/todo/todo.go: the session's todo list. The list's mutex makes each method one step, so a
-- method is a function from the list to its result and the new list. The clock that a call reads is
-- an argument. `next` counts the items, so it cannot reach the bound of Go's int.
pub mod Invariant
pub mod Create
pub mod Update
pub mod Reminder
mod Tests
use gonesis.Prelude.{
  ℕ, suc, ◌+◌, Text, codes, text_eq, Bool, true, false, ◌||◌, Option, none, some, List, [], ◌∷◌,
  ◌++◌, if◌then◌else◌, Result, ok, err, not, ◌&&◌,
}
use gonesis.Strings.{trim_space}
use gonesis.Strconv.{itoa}

-- A status is a string in the source, and any string can be given to `Update`.
abbrev pub Status : Type 0
Status = Text

abbrev pub pending : Status
pending = codes "pending"

abbrev pub in_progress : Status
in_progress = codes "in_progress"

abbrev pub completed : Status
completed = codes "completed"

abbrev pub cancelled : Status
cancelled = codes "cancelled"

-- `Valid`
pub valid : Status → Bool
valid s = text_eq s pending || text_eq s in_progress || text_eq s completed || text_eq s cancelled

pub record Item : Type 0 where
  pub id : Text
  pub content : Text
  pub status : Status
  pub created_at : ℕ
  pub updated_at : ℕ

-- `List`; its zero value is the empty list that `New` returns.
pub record TodoList : Type 0 where
  pub items : List Item
  pub next : ℕ

abbrev pub new : TodoList
new = record { items = []; next = 0 }

pub data TodoError : Type 0 where
  no_items : TodoError
  blank_item : ℕ → TodoError
  blank_content : TodoError
  invalid_status : Text → TodoError
  unknown_id : Text → TodoError

abbrev pub is_blank : Text → Bool
is_blank [] = true
is_blank (c ∷ s) = false

-- The first loop of `Create`, from item `i` on.
pub trim_all : ℕ → List Text → Result TodoError (List Text)
trim_all i [] = ok []
trim_all i (c ∷ cs) =
    let rest = trim_all (i + 1) cs in
    if is_blank (trim_space c)
    then err (blank_item i)
    else elim rest [ ok ts ↦ ok (trim_space c ∷ ts) | err e ↦ err e ]

-- The body of the second loop of `Create`.
pub add_item : ℕ → Text → TodoList → Text × TodoList
add_item now c l =
    let id = itoa (l.next + 1) in
    (
      id,
      record {
        items =
            l.items
            ++ record { id = id; content = c; status = pending; created_at = now; updated_at = now }
              ∷ [];
        next = l.next + 1;
      },
    )

pub add_items : ℕ → List Text → TodoList → List Text × TodoList
add_items now [] l = ([], l)
add_items now (c ∷ cs) l =
    let (id, l') = add_item now c l in let (ids, l'') = add_items now cs l' in (id ∷ ids, l'')

abbrev pub add_trimmed :
    ℕ → Result TodoError (List Text) → TodoList → Result TodoError (List Text) × TodoList
add_trimmed now (err e) l = (err e, l)
add_trimmed now (ok ts) l = let (ids, l') = add_items now ts l in (ok ids, l')

-- `Create`
pub create : ℕ → List Text → TodoList → Result TodoError (List Text) × TodoList
create now [] l = (err no_items, l)
create now (c ∷ cs) l = add_trimmed now (trim_all 0 (c ∷ cs)) l

abbrev pub set_content : Option Text → Text → Text
set_content none old = old
set_content (some c) old = trim_space c

abbrev pub set_status : Status → Status → Status
set_status [] old = old
set_status (c ∷ s) old = c ∷ s

-- The item that `Update` leaves in the place of the one that it finds.
pub updated : ℕ → Option Text → Status → Item → Item
updated now content status it = record it {
  content = set_content content it.content;
  status = set_status status it.status;
  updated_at = now;
}

-- The loop of `Update`; `none` means that no item has the id.
pub update_first : ℕ → Text → Option Text → Status → List Item → Option (List Item)
update_first now id content status [] = none
update_first now id content status (it ∷ items) =
    let rest = update_first now id content status items in
    if text_eq it.id id
    then some (updated now content status it ∷ items)
    else elim rest [ none ↦ none | some r ↦ some (it ∷ r) ]

-- The tests at the head of `Update`.
pub check_update : Option Text → Status → Option TodoError
check_update content status =
    let bad_content : Bool = elim content [ none ↦ false | some c ↦ is_blank (trim_space c) ] in
    if bad_content
    then some blank_content
    else if not (is_blank status) && not (valid status)
    then some (invalid_status status)
    else none

abbrev pub store_update : Text → Option (List Item) → TodoList → Option TodoError × TodoList
store_update id none l = (some (unknown_id id), l)
store_update id (some items) l = (none, record l { items = items })

abbrev pub unless_error :
    Option TodoError → Option TodoError × TodoList → TodoList → Option TodoError × TodoList
unless_error (some e) r l = (some e, l)
unless_error none r l = r

-- `Update`; no error is `none`.
pub update : ℕ → Text → Option Text → Status → TodoList → Option TodoError × TodoList
update now id content status l =
    unless_error (check_update content status)
      (store_update id (update_first now id content status l.items) l) l

-- `Snapshot` copies the items, and `IsEmpty` tests their number.
pub snapshot : TodoList → List Item
snapshot l = l.items

pub is_empty : TodoList → Bool
is_empty l = elim l.items [ [] ↦ true | _ ↦ false ]

pub checkbox : Status → Text
checkbox s =
    if text_eq s completed
    then codes "[x]"
    else if text_eq s in_progress
    then codes "[~]"
    else if text_eq s cancelled
    then codes "[-]"
    else codes "[ ]"

-- The loop of `RenderMarkdown` behind its first item.
pub render_more : List Item → Text
unfolding checkbox
render_more [] = []
render_more (it ∷ items) =
    10 ∷ codes "- " ++ checkbox it.status ++ codes " " ++ it.content ++ render_more items

pub render_items : List Item → Text
unfolding checkbox render_more
render_items [] = []
render_items (it ∷ items) =
    codes "- " ++ checkbox it.status ++ codes " " ++ it.content ++ render_more items

-- `RenderMarkdown`
pub render_markdown : TodoList → Text
unfolding render_items snapshot
render_markdown l = render_items (snapshot l)

-- One line of `RenderSystemReminder`.
pub reminder_line : Item → Text
reminder_line it =
    codes "- [" ++ it.status ++ codes "] #" ++ it.id ++ codes " " ++ it.content ++ 10 ∷ []

pub reminder_lines : List Item → Text
unfolding reminder_line
reminder_lines [] = []
reminder_lines (it ∷ items) = reminder_line it ++ reminder_lines items

pub render_reminder : List Item → Text
unfolding reminder_lines
render_reminder [] = []
render_reminder (it ∷ items) =
    (codes "<system-reminder>" ++ 10 ∷ [])
    ++ (codes "Current todo list (session-scoped). Keep statuses up to date via todo_update."
        ++ 10 ∷ [])
    ++ reminder_lines (it ∷ items)
    ++ codes "</system-reminder>"

-- `RenderSystemReminder`
unfoldable pub render_system_reminder : TodoList → Text
unfolding render_reminder snapshot
render_system_reminder l = render_reminder (snapshot l)
