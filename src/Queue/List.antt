-- ===== src/Queue/List.antt =====
-- RIX_LIST of include/rix/rix_queue.h: a list linked both ways, with its first element in the
-- head. Each macro is a function from the head and the element array to the new head and array.
pub mod Holds
pub mod Edit
pub mod Swap
use relative_q.Base.{ℕ, ◌==◌, if◌then◌else◌, Bool, Option, List}
use relative_q.Queue.Links.{Links, nil, set_next, set_prev}
use relative_q.Queue.Walk

pub record Head : Type 0 where
  pub first : ℕ

abbrev pub Queue : Type 0
Queue = Head × Links

pub init : Head → Head
init h = record h { first = nil }

pub is_empty : Head → Bool
is_empty h = h.first == nil

pub insert_head : ℕ → Queue → Queue
unfolding set_next set_prev
insert_head e (h, m) =
    let first = h.first in
    let m1 = set_next e first (set_prev e nil m) in
    (record { first = e }, if first == nil then m1 else set_prev first e m1)

pub insert_after : ℕ → ℕ → Queue → Queue
unfolding set_next set_prev
insert_after at e (h, m) =
    let next = m.next at in
    let m1 = set_next at e (set_next e next (set_prev e at m)) in
    (h, if next == nil then m1 else set_prev next e m1)

pub insert_before : ℕ → ℕ → Queue → Queue
unfolding set_next set_prev
insert_before at e (h, m) =
    let prev = m.prev at in
    let m1 = set_prev at e (set_next e at (set_prev e prev m)) in
    if prev == nil then (record { first = e }, m1) else (h, set_next prev e m1)

-- The first test of `remove`, and the second.
drop_next : ℕ → ℕ → Links → Links
unfolding set_prev
drop_next next prev m = if next == nil then m else set_prev next prev m

drop_prev : ℕ → ℕ → Queue → Queue
unfolding set_next
drop_prev next prev (h, m) =
    if prev == nil then (record { first = next }, m) else (h, set_next prev next m)

pub remove : ℕ → Queue → Queue
unfolding set_next set_prev drop_next drop_prev
remove e (h, m) =
    let next = m.next e in
    let prev = m.prev e in
    let (h', m') = drop_prev next prev (h, drop_next next prev m) in
    (h', set_prev e nil (set_next e nil m'))

-- A head that is not empty gets its first element's `prev` cleared.
clear_prev : Head → Links → Links
unfolding set_prev
clear_prev h m = if h.first == nil then m else set_prev h.first nil m

-- Gives the new heads and the new array.
pub swap : Head → Head → Links → Head × Head × Links
unfolding clear_prev
swap h1 h2 m =
    let h1' : Head = record { first = h2.first } in
    let h2' : Head = record { first = h1.first } in (h1', h2', clear_prev h2' (clear_prev h1' m))

pub foreach : ℕ → Queue → Option (List ℕ)
foreach fuel (h, m) = Walk.foreach m.next fuel h.first

pub foreach_safe : (ℕ → Queue → Queue) → ℕ → Queue → Option Queue
foreach_safe body fuel (h, m) = Walk.foreach_safe (λ s. s.1.next) body fuel (h, m) h.first
