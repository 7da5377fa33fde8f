-- ===== src/Queue/Slist.antt =====
-- RIX_SLIST of include/rix/rix_queue.h: a list linked by `next`, with its first element in the
-- head. Each macro is a function from the head and the `next` words to the new ones.
pub mod Laws
pub mod Remove
use relative_q.Base.{
  ℕ, zero, suc, ◌==◌, if◌then◌else◌, Bool, Option, none, some, List, true, false, ◌||◌,
}
use mathlib.Core.Option
use relative_q.Queue.Links.{nil, update}
use relative_q.Queue.Chain.Search.{find_before}
use relative_q.Queue.Walk

pub record Head : Type 0 where
  pub first : ℕ

abbrev pub Queue : Type 0
Queue = Head × (ℕ → ℕ)

unfoldable pub init : Head → Head
init h = record h { first = nil }

pub is_empty : Head → Bool
is_empty h = h.first == nil

unfoldable pub insert_head : ℕ → Queue → Queue
insert_head e (h, next) = (record { first = e }, update next e h.first)

unfoldable pub insert_after : ℕ → ℕ → Queue → Queue
insert_after at e (h, next) = let after = next at in (h, update (update next e after) at e)

unfoldable pub remove_head : Queue → Queue
remove_head (h, next) =
    if h.first == nil then (h, next) else (record { first = next h.first }, next)

unfoldable pub remove_after : ℕ → Queue → Queue
remove_after at (h, next) =
    let rem = next at in if rem == nil then (h, next) else (h, update next at (next rem))

unfoldable pub remove : ℕ → ℕ → Queue → Option Queue
unfolding remove_head remove_after
remove fuel e (h, next) =
    if h.first == e
    then some (remove_head (h, next))
    else Option.map (λ cur. if cur == nil then (h, next) else remove_after cur (h, next))
        (find_before next e fuel h.first)

pub foreach : ℕ → Queue → Option (List ℕ)
foreach fuel (h, next) = Walk.foreach next fuel h.first

pub foreach_safe : (ℕ → Queue → Queue) → ℕ → Queue → Option Queue
foreach_safe body fuel (h, next) = Walk.foreach_safe (λ s. s.1) body fuel (h, next) h.first
