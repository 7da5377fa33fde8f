-- ===== src/Queue/Circleq.antt =====
-- RIX_CIRCLEQ of include/rix/rix_queue.h: a ring linked both ways, entered at the head's first
-- element. Each macro is a function from the head and the element array to the new ones.
pub mod Ring
pub mod Insert
pub mod Remove
pub mod Visit
use mathlib.Core.Option
use relative_q.Base.{
  ℕ, zero, suc, ◌==◌, if◌then◌else◌, not, ◌&&◌, ◌||◌, Bool, Option, none, some, List,
}
use relative_q.Queue.Links.{Links, nil, set_next, set_prev}
use relative_q.Queue.Walk

pub record Head : Type 0 where
  pub first : ℕ

abbrev pub Queue : Type 0
Queue = Head × Links

pub init : Head → Head
init h = record h { first = nil }

pub is_empty : Head → Bool
is_empty h = h.first == nil

-- `RIX_CIRCLEQ_LAST`, the null index for an empty queue.
pub last : Queue → ℕ
unfolding is_empty
last (h, m) = if is_empty h then nil else m.prev h.first

-- The links that `insert_head` and `insert_tail` write: alone, and before the first of others.
link_alone : ℕ → Links → Links
unfolding set_next set_prev
link_alone e m = set_prev e e (set_next e e m)

link_first : ℕ → ℕ → Links → Links
unfolding set_next set_prev
link_first e first m =
    let last = m.prev first in
    set_next last e (set_prev first e (set_prev e last (set_next e first m)))

pub insert_head : ℕ → Queue → Queue
unfolding is_empty link_alone link_first
insert_head e (h, m) =
    (record { first = e }, if is_empty h then link_alone e m else link_first e h.first m)

pub insert_tail : ℕ → Queue → Queue
unfolding is_empty link_alone link_first
insert_tail e (h, m) =
    if is_empty h then (record { first = e }, link_alone e m) else (h, link_first e h.first m)

pub insert_after : ℕ → ℕ → Queue → Queue
unfolding set_next set_prev
insert_after at e (h, m) =
    let next = m.next at in (h, set_prev next e (set_next at e (set_next e next (set_prev e at m))))

pub insert_before : ℕ → ℕ → Queue → Queue
unfolding set_next set_prev
insert_before at e (h, m) =
    let prev = m.prev at in
    (
      if h.first == at then record { first = e } else h,
      set_prev at e (set_next prev e (set_prev e prev (set_next e at m))),
    )

-- The branch of `remove` for an element that is not alone.
unlink : ℕ → ℕ → ℕ → Queue → Queue
unfolding set_next set_prev
unlink e next prev (h, m) =
    (if h.first == e then record { first = next } else h, set_prev next prev (set_next prev next m))

pub remove : ℕ → Queue → Queue
unfolding set_next set_prev unlink
remove e (h, m) =
    let next = m.next e in
    let prev = m.prev e in
    let (h', m') = if next == e then (record { first = nil }, m) else unlink e next prev (h, m) in
    (h', set_prev e nil (set_next e nil m'))

-- The loops end where the ring closes: the step back to the start is turned into the null index.
abbrev ring_step : (ℕ → ℕ) → ℕ → ℕ → ℕ
ring_step step start i = if step i == start then nil else step i

pub foreach : ℕ → Queue → Option (List ℕ)
foreach fuel (h, m) = Walk.foreach (ring_step m.next h.first) fuel h.first

pub foreach_reverse : ℕ → Queue → Option (List ℕ)
foreach_reverse fuel (h, m) =
    let start = if not (h.first == nil) then m.prev h.first else nil in
    Walk.foreach (ring_step m.prev start) fuel start

-- The third part of the `for` in `RIX_CIRCLEQ_FOREACH_SAFE`, for the element after `i`.
safe_step : ℕ → ℕ → Links → ℕ
safe_step start next m =
    if (next == start) || (not (start == nil) && (m.next start == nil)) then nil else next

safe_loop : (ℕ → Queue → Queue) → ℕ → ℕ → ℕ → Queue → Option Queue
unfolding safe_step
safe_loop body zero start i q = none
safe_loop body (suc fuel) start i q =
    let next = q.1.next i in
    let q' = body i q in
    let rest =
      safe_loop body fuel (if i == start then next else start) (safe_step start next q'.1) q' in
    if i == nil then some q else rest

pub foreach_safe : (ℕ → Queue → Queue) → ℕ → Queue → Option Queue
unfolding safe_loop
foreach_safe body fuel (h, m) = safe_loop body fuel h.first h.first (h, m)
