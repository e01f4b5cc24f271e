-- ===== src/Todo/Invariant.antt =====
-- What always holds of a todo list: ids are the decimal numbers from 1 on, in order, contents are
-- trimmed and not blank, statuses are known.
use gonesis.Prelude.{
  ℕ, zero, suc, ◌+◌, ◌<◌, Text, true, false, List, [], ◌∷◌, ◌++◌, ◌≡◌, ◌≢◌, ap, ◌∙◌, map, arith,
  All, Distinct,
}
use gonesis.Strings.{trim_space}
use gonesis.Strconv.{itoa}
use gonesis.Strconv.Laws.{itoa-injective}
use gonesis.Todo.{Item, TodoList, valid, is_blank}

-- The ids that a list gives out: `n` decimal numbers from `k` on.
unfoldable pub numbers : ℕ → ℕ → List Text
numbers k zero = []
numbers k (suc n) = itoa k ∷ numbers (k + 1) n

pub record IsClean (it : Item) : Type 0 where
  pub trimmed : trim_space it.content ≡ it.content
  pub not_blank : is_blank it.content ≡ false
  pub known : valid it.status ≡ true

abbrev pub ids : List Item → List Text
ids = map (λ it. it.id)

pub record IsValid (l : TodoList) : Type 0 where
  pub numbered : ids l.items ≡ numbers 1 l.next
  pub clean : All IsClean l.items

pub numbers-add : (k m n : ℕ) → numbers k (m + n) ≡ numbers k m ++ numbers (k + m) n
unfolding numbers
numbers-add k zero n =
    let same_start : k ≡ k + 0 = omega arith in let same_count : 0 + n ≡ n = omega arith in cc
numbers-add k (suc m) n =
    ap (numbers k) {y = suc (m + n)} (omega arith)
    ∙ ap (λ l. itoa k ∷ l)
        (numbers-add (k + 1) m n ∙ ap (λ j. numbers (k + 1) m ++ numbers j n) (omega arith))

numbers_ne : (k j n : ℕ) → j < k → All (λ y. y ≢ itoa j) (numbers k n)
unfolding numbers
numbers_ne k j zero h = tt
numbers_ne k j (suc n) h =
    (λ e. absurd (omega (arith, itoa-injective k j e)), numbers_ne (k + 1) j n (omega arith))

numbers-Distinct : (k n : ℕ) → Distinct (numbers k n)
unfolding numbers
numbers-Distinct k zero = tt
numbers-Distinct k (suc n) = (numbers_ne (k + 1) k n (omega arith), numbers-Distinct (k + 1) n)

-- In a valid list no two items have one id.
pub ids-Distinct : (l : TodoList) → IsValid l → Distinct (ids l.items)
ids-Distinct l v = rw v.numbered (numbers-Distinct 1 l.next)
