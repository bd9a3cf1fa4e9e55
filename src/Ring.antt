-- ===== src/Ring.antt =====
-- zeos_full/list.c: doubly linked rings. A list head is its address, and the links of all of them are
-- the two functions of a store; a null pointer is 0.
pub mod Linked
pub mod Refine
pub mod Move
use ze_os_filesystem.Base.{ℕ, ◌==◌, Bool, update}

pub record Links : Type 0 where
  pub next : ℕ → ℕ
  pub prev : ℕ → ℕ

abbrev pub set_next : ℕ → ℕ → Links → Links
set_next p v h = record h { next = update h.next p v }

abbrev pub set_prev : ℕ → ℕ → Links → Links
set_prev p v h = record h { prev = update h.prev p v }

unfoldable pub init_list_head : ℕ → Links → Links
init_list_head list h = set_prev list list (set_next list list h)

-- `__list_add`
unfoldable pub add_between : ℕ → ℕ → ℕ → Links → Links
add_between new prev next h =
    set_next prev new (set_prev new prev (set_next new next (set_prev next new h)))

unfoldable pub list_add : ℕ → ℕ → Links → Links
list_add new head h = add_between new head (h.next head) h

unfoldable pub list_add_tail : ℕ → ℕ → Links → Links
list_add_tail new head h = add_between new (h.prev head) head h

-- `__list_del`
unfoldable pub del_between : ℕ → ℕ → Links → Links
del_between prev next h = set_next prev next (set_prev next prev h)

unfoldable pub list_del : ℕ → Links → Links
list_del entry h = set_prev entry 0 (set_next entry 0 (del_between (h.prev entry) (h.next entry) h))

unfoldable pub list_is_last : ℕ → ℕ → Links → Bool
list_is_last list head h = h.next list == head

unfoldable pub list_empty : ℕ → Links → Bool
list_empty head h = h.next head == head

-- `list_first`
unfoldable pub list_first : ℕ → Links → ℕ
list_first head h = h.next head
