-- ===== src/Queue/Tailq.antt =====
-- RIX_TAILQ of include/rix/rix_queue.h: a list linked both ways, with both ends in the head. Each
-- macro is a function from the head and the element array to the new head and array.
pub mod Holds
pub mod Insert
pub mod Remove
pub mod Concat
pub mod Visit
use relative_q.Base.{ℕ, ◌==◌, if◌then◌else◌, Bool, Option, List}
use relative_q.Queue.Links.{Links, nil, set_next, set_prev}
use relative_q.Queue.Walk

pub record Head : Type 0 where
  pub first : ℕ
  pub last : ℕ

abbrev pub Queue : Type 0
Queue = Head × Links

pub init : Head → Head
init h = record h { first = nil; last = nil }

pub is_empty : Head → Bool
is_empty h = h.first == nil

pub insert_head : ℕ → Queue → Queue
unfolding set_next set_prev
insert_head e (h, m) =
    let first = h.first in
    let m1 = set_next e first (set_prev e nil m) in
    if first == nil
    then (record { first = e; last = e }, m1)
    else (record h { first = e }, set_prev first e m1)

pub insert_tail : ℕ → Queue → Queue
unfolding set_next set_prev
insert_tail e (h, m) =
    let last = h.last in
    let m1 = set_prev e last (set_next e nil m) in
    if last == nil
    then (record { first = e; last = e }, m1)
    else (record h { last = e }, set_next last e m1)

pub insert_after : ℕ → ℕ → Queue → Queue
unfolding set_next set_prev
insert_after at e (h, m) =
    let next = m.next at in
    let m1 = set_next at e (set_prev e at (set_next e next m)) in
    if next == nil then (record h { last = e }, m1) else (h, set_prev next e m1)

pub insert_before : ℕ → ℕ → Queue → Queue
unfolding set_next set_prev
insert_before at e (h, m) =
    let prev = m.prev at in
    let m1 = set_prev at e (set_next e at (set_prev e prev m)) in
    if prev == nil then (record h { first = e }, m1) else (h, set_next prev e m1)

-- The two tests of `remove`, one after the other.
drop_next : ℕ → ℕ → Queue → Queue
unfolding set_prev
drop_next next prev (h, m) =
    if next == nil then (record h { last = prev }, m) else (h, set_prev next prev m)

drop_prev : ℕ → ℕ → Queue → Queue
unfolding set_next
drop_prev next prev (h, m) =
    if prev == nil then (record h { first = next }, m) else (h, set_next prev next m)

pub remove : ℕ → Queue → Queue
unfolding set_next set_prev drop_next drop_prev
remove e (h, m) =
    let next = m.next e in
    let prev = m.prev e in
    let (h', m') = drop_prev next prev (drop_next next prev (h, m)) in
    (h', set_prev e nil (set_next e nil m'))

-- `head2` is the second head.
pub concat : Head → Queue → Head × Queue
unfolding set_next set_prev is_empty
concat h2 (h1, m) = if is_empty h2 then (h2, (h1, m)) else (
  record { first = nil; last = nil },
  if is_empty h1
      then (record { first = h2.first; last = h2.last }, m)
      else (record h1 { last = h2.last }, set_prev h2.first h1.last (set_next h1.last h2.first m)),
)

-- Gives the new first head and the new second head.
pub swap : Head → Head → Head × Head
swap h1 h2 =
    (record { first = h2.first; last = h2.last }, record { first = h1.first; last = h1.last })

pub foreach : ℕ → Queue → Option (List ℕ)
foreach fuel (h, m) = Walk.foreach m.next fuel h.first

pub foreach_reverse : ℕ → Queue → Option (List ℕ)
foreach_reverse fuel (h, m) = Walk.foreach m.prev fuel h.last

pub foreach_safe : (ℕ → Queue → Queue) → ℕ → Queue → Option Queue
foreach_safe body fuel (h, m) = Walk.foreach_safe (λ s. s.1.next) body fuel (h, m) h.first
