-- ===== src/Queue/Links.antt =====
-- The element array as the list macros of include/rix/rix_queue.h see it: for each index the
-- two link words of the element's entry. A pointer to an element is its 1-origin index.
pub mod Segment
pub mod Splice
use relative_q.Base.{ℕ, ◌==◌, if◌then◌else◌}

abbrev pub nil : ℕ
nil = 0

-- `m.next i` is `base[i - 1].field.next`.
pub record Links : Type 0 where
  pub next : ℕ → ℕ
  pub prev : ℕ → ℕ

abbrev pub update : (ℕ → ℕ) → ℕ → ℕ → ℕ → ℕ
update f i v j = if j == i then v else f j

-- A store to a link word of element `i`.
unfoldable pub set_next : ℕ → ℕ → Links → Links
set_next i v m = record m { next = update m.next i v }

unfoldable pub set_prev : ℕ → ℕ → Links → Links
set_prev i v m = record m { prev = update m.prev i v }
