-- ===== src/Todo/Reminder.antt =====
-- The reminder is empty exactly when the list is.
use gonesis.Prelude.{[], ◌∷◌, ◌≡◌, ◌↔◌, refl}
use gonesis.Todo.{Item, TodoList, render_reminder, render_system_reminder}
use gonesis.Prelude.{List}

reminder_is_empty : (items : List Item) → (render_reminder items ≡ []) ↔ (items ≡ [])
unfolding render_reminder
reminder_is_empty [] = (λ e. refl, λ e. refl)
reminder_is_empty (it ∷ items) = (λ e. cc, λ e. cc)

-- `RenderSystemReminder` returns the empty string exactly for the empty list.
pub render_system_reminder-nil : (l : TodoList) → (render_system_reminder l ≡ []) ↔ (l.items ≡ [])
unfolding render_system_reminder
render_system_reminder-nil l = reminder_is_empty l.items
