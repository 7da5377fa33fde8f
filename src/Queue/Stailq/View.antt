-- ===== src/Queue/Stailq/View.antt =====
-- RIX_STAILQ against RIX_SLIST, and against the list of the elements: without the `last` word a
-- STAILQ is an SLIST, and its macros do what those of the SLIST do.
use relative_q.Base.{◌==◌, ◌≡◌, last_or, Bool-cases, false, if◌then◌else◌, inl, arith, refl, inr}
use mathlib.Core.List.{List}
use relative_q.Queue.Slist
use relative_q.Queue.Slist.Laws
use relative_q.Queue.Links.{nil}
use relative_q.Queue.Stailq.{
  Head, Queue, insert_head, insert_after, remove_head, remove_after, ℕ, ◌==◌,
}

-- The SLIST that shares the elements of the queue.
abbrev pub view : Queue → Slist.Queue
view (h, next) = (record { first = h.first }, next)

-- The queue holds the elements `xs`, in this order.
pub record Holds (q : Queue) (xs : List ℕ) : Type 0 where
  pub chain : Laws.Holds (view q) xs
  pub last : q.0.last ≡ last_or nil xs

-- `q` holds `xs`, and nothing but the links of `touched` was written.
pub record Becomes (next : ℕ → ℕ) (touched xs : List ℕ) (q : Queue) : Type 0 where
  pub chain : Laws.Becomes next touched xs (view q)
  pub last : q.0.last ≡ last_or nil xs

module _ (h : Head) (next : ℕ → ℕ) where
  pub remove_head-view : view (remove_head (h, next)) ≡ Slist.remove_head (view (h, next))
  unfolding remove_head Slist.remove_head
  remove_head-view = elim (Bool-cases (h.first == nil)) [ inl z ↦ rw z | inr z ↦ rw z ]

  pub insert_after-view :
      (at e : ℕ) → view (insert_after at e (h, next)) ≡ Slist.insert_after at e (view (h, next))
  unfolding insert_after Slist.insert_after
  insert_after-view at e = elim (Bool-cases (next at == nil)) [ inl z ↦ rw z | inr z ↦ rw z ]

  pub remove_after-view :
      (at : ℕ) → view (remove_after at (h, next)) ≡ Slist.remove_after at (view (h, next))
  unfolding remove_after Slist.remove_after
  remove_after-view at = elim (Bool-cases (next at == nil)) [
    | inl z ↦ rw z
    | inr z ↦ elim (Bool-cases (next (next at) == nil)) [ inl y ↦ rw (z, y) | inr y ↦ rw (z, y) ]
  ]

  pub insert_head-last :
      (e : ℕ) → (insert_head e (h, next)).0.last ≡ (if h.first == nil then e else h.last)
  unfolding insert_head
  insert_head-last e = refl

  pub insert_after-last :
      (at e : ℕ) → (insert_after at e (h, next)).0.last ≡ (if next at == nil then e else h.last)
  unfolding insert_after
  insert_after-last at e = ground arith

  pub remove_head-last :
      (h.first == nil) ≡ false
      → (remove_head (h, next)).0.last ≡ (if next h.first == nil then nil else h.last)
  unfolding remove_head
  remove_head-last z = rw z

  pub remove_after-last :
      (at : ℕ)
      → (next at == nil) ≡ false
      → (remove_after at (h, next)).0.last ≡ (if next (next at) == nil then at else h.last)
  unfolding remove_after
  remove_after-last at z = ground arith
