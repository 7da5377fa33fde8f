-- ===== src/Queue/Stailq.antt =====
-- RIX_STAILQ of include/rix/rix_queue.h: a list linked by `next`, with both ends in the head. Each
-- macro is a function from the head and the `next` words to the new ones.
pub mod View
pub mod Insert
pub mod Remove
pub mod Concat
use mathlib.Core.Option
use relative_q.Base.{ℕ, ◌==◌, if◌then◌else◌, Bool, Option, some, List}
use relative_q.Queue.Links.{nil, update}
use relative_q.Queue.Chain.Search.{find_before}
use relative_q.Queue.Walk

pub record Head : Type 0 where
  pub first : ℕ
  pub last : ℕ

abbrev pub Queue : Type 0
Queue = Head × (ℕ → ℕ)

pub init : Head → Head
init h = record h { first = nil; last = nil }

pub is_empty : Head → Bool
is_empty h = h.first == nil

pub insert_head : ℕ → Queue → Queue
insert_head e (h, next) =
    (record { first = e; last = if h.first == nil then e else h.last }, update next e h.first)

pub insert_tail : ℕ → Queue → Queue
insert_tail e (h, next) =
    let next1 = update next e nil in
    if h.last == nil
    then (record { first = e; last = e }, next1)
    else (record h { last = e }, update next1 h.last e)

pub insert_after : ℕ → ℕ → Queue → Queue
insert_after at e (h, next) =
    let after = next at in
    (if after == nil then record h { last = e } else h, update (update next e after) at e)

pub remove_head : Queue → Queue
remove_head (h, next) =
    let after = next h.first in
    if h.first == nil
    then (h, next)
    else (record { first = after; last = if after == nil then nil else h.last }, next)

pub remove_after : ℕ → Queue → Queue
remove_after at (h, next) =
    let rem = next at in
    let after = next rem in
    if rem == nil
    then (h, next)
    else (if after == nil then record h { last = at } else h, update next at after)

pub remove : ℕ → ℕ → Queue → Option Queue
unfolding remove_head remove_after
remove fuel e (h, next) =
    if h.first == e
    then some (remove_head (h, next))
    else Option.map (λ cur. if cur == nil then (h, next) else remove_after cur (h, next))
        (find_before next e fuel h.first)

-- Drops the elements up to and with `e`; for the null pointer, all.
pub remove_head_until : ℕ → Queue → Queue
remove_head_until e (h, next) =
    let after = if e == nil then nil else next e in
    (record { first = after; last = if after == nil then nil else h.last }, next)

-- `h2` is the second head.
pub concat : Head → Queue → Head × Queue
unfolding is_empty
concat h2 (h1, next) = if is_empty h2 then (h2, (h1, next)) else (
  record { first = nil; last = nil },
  if is_empty h1
      then (record { first = h2.first; last = h2.last }, next)
      else (record h1 { last = h2.last }, update next h1.last h2.first),
)

-- Gives the new first head and the new second head.
pub swap : Head → Head → Head × Head
swap h1 h2 =
    (record { first = h2.first; last = h2.last }, record { first = h1.first; last = h1.last })

pub foreach : ℕ → Queue → Option (List ℕ)
foreach fuel (h, next) = Walk.foreach next fuel h.first

pub foreach_safe : (ℕ → Queue → Queue) → ℕ → Queue → Option Queue
foreach_safe body fuel (h, next) = Walk.foreach_safe (λ s. s.1) body fuel (h, next) h.first
