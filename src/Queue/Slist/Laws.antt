-- ===== src/Queue/Slist/Laws.antt =====
-- The macros of RIX_SLIST against the list of the elements.
use relative_q.Base.{
  refl, ℕ, ◌≡◌, ◌≢◌, List, [], ◌∷◌, ◌++◌, head_or, ◌∉◌, Distinct, arith, not-mem-append,
  contains-append, contains_tail, ◌∙◌, head_or-append, if◌then◌else◌, ◌==◌, last_or-append, false,
  Distinct-insert, Distinct-remove, true,
}
use relative_q.Queue.Links.{nil, update}
use mathlib.Core.List.{append_assoc, tail}
use relative_q.Queue.Chain.{Chain}
use relative_q.Queue.Chain.Splice
use relative_q.Queue.Chain.Splice.{Chain-append, nil-not_mem_Chain, SameOutside}
use relative_q.Queue.Slist.{Head, Queue, insert_head, insert_after, remove_head, remove_after}

-- The list holds the elements `xs`, in this order.
pub record Holds (q : Queue) (xs : List ℕ) : Type 0 where
  pub first : q.0.first ≡ head_or xs nil
  pub links : Chain q.1 xs nil
  pub distinct : Distinct xs

pub record Becomes (next : ℕ → ℕ) (touched xs : List ℕ) (q : Queue) : Type 0 where
  pub holds : Holds q xs
  pub same : SameOutside touched next q.1

linked_step :
    (a at e r : ℕ) (next : ℕ → ℕ) (ys : List ℕ)
    → e ∉ at ∷ ys
    → update (update next e r) at e a ≡ (if a == e then r else if a == at then e else next a)
linked_step a at e r next ys o = ground arith

insert_after_same :
    (a at e : ℕ) (next : ℕ → ℕ) → a ∉ at ∷ e ∷ [] → update (update next e (next at)) at e a ≡ next a
insert_after_same a at e next o = ground arith

module _ (h : Head) (next : ℕ → ℕ) where
  -- `RIX_SLIST_INSERT_HEAD` of an element that is not listed puts it in front of the others, and
  -- writes its link alone.
  pub insert_head-cons :
      (e : ℕ) (xs : List ℕ)
      → Holds (h, next) xs
      → e ≢ nil
      → e ∉ xs
      → Becomes next (e ∷ []) (e ∷ xs) (insert_head e (h, next))
  unfolding insert_head
  insert_head-cons e xs q ne o = record {
    holds = record {
      first = refl;
      links =
          Splice.linked next _ e [] xs (λ a n. rw q.first (ground arith)) q.links q.distinct ne refl
            o;
      distinct = (o, q.distinct);
    };
    same = λ a n o. ground arith;
  }

  -- `RIX_SLIST_INSERT_AFTER` puts an element that is not listed right behind the element `at`,
  -- and writes the links of these two alone.
  pub insert_after-Slist :
      (at e : ℕ) (xs ys : List ℕ)
      → Holds (h, next) (xs ++ (at ∷ ys))
      → e ≢ nil
      → e ∉ xs ++ (at ∷ ys)
      → Becomes next (at ∷ e ∷ []) (xs ++ (at ∷ e ∷ ys)) (insert_after at e (h, next))
  unfolding insert_after
  insert_after-Slist at e xs ys q ne o =
      let (cl, (na, qa, cr)) = Chain-append next xs (at ∷ ys) nil q.links in
      let (ox, oy) = not-mem-append e xs (at ∷ ys) o in
      let split = λ (zs : List ℕ). append_assoc xs (at ∷ []) zs in
      let ox' : e ∉ xs ++ (at ∷ []) = ground (arith, contains-append e xs (at ∷ [])) in
      let oy' = contains_tail e at ys oy in
      let c' = rw (← split ys) at q.links in
      let d' = rw (← split ys) at q.distinct in
      rw (← split (e ∷ ys)) (record {
        holds = record {
          first = q.first ∙ rw (split (e ∷ ys), head_or-append, head_or-append) refl;
          links =
              Splice.linked next _ e (xs ++ (at ∷ [])) ys
                (λ a n. rw (last_or-append, qa) (linked_step a at e (head_or ys nil) next ys oy)) c'
                d' ne ox' oy';
          distinct = Distinct-insert e (xs ++ (at ∷ [])) ys d' ox' oy';
        };
        same = λ a n o'. insert_after_same a at e next o';
      })

  -- `RIX_SLIST_REMOVE_HEAD` drops the first element and writes no link; on an empty list it does
  -- nothing.
  pub remove_head-tail :
      (xs : List ℕ)
      → Holds (h, next) xs
      → Holds (remove_head (h, next)) (tail xs) × ((remove_head (h, next)).1 ≡ next)
  unfolding remove_head
  remove_head-tail [] q = let e : (h.first == nil) ≡ true = ground arith in rw e (q, refl)
  remove_head-tail (x ∷ xs) q =
      let e : (h.first == nil) ≡ false = ground arith in
      rw e
        (record { first = rw q.first q.links.1; links = q.links.2; distinct = q.distinct.1 }, refl)

  -- `RIX_SLIST_REMOVE_AFTER` drops the element behind `at`, and writes the link of `at` alone.
  pub remove_after-splice :
      (at e : ℕ) (xs ys : List ℕ)
      → Holds (h, next) (xs ++ (at ∷ e ∷ ys))
      → Becomes next (at ∷ []) (xs ++ (at ∷ ys)) (remove_after at (h, next))
  unfolding remove_after
  remove_after-splice at e xs ys q =
      let (cl, (na, qa, (ne, qe, cr))) = Chain-append next xs (at ∷ e ∷ ys) nil q.links in
      let split = λ (zs : List ℕ). append_assoc xs (at ∷ []) zs in
      let z : (next at == nil) ≡ false = ground arith in
      let c' = rw (← split (e ∷ ys)) at q.links in
      let d' = rw (← split (e ∷ ys)) at q.distinct in
      rw (z, ← split ys)
        (record {
          holds = record {
            first = q.first ∙ rw (split ys, head_or-append, head_or-append) refl;
            links =
                Splice.unlinked next _ e (xs ++ (at ∷ [])) ys (λ a n. rw (last_or-append, qa, qe))
                  c' d';
            distinct = Distinct-remove e (xs ++ (at ∷ [])) ys d';
          };
          same = λ a n o'. ground arith;
        })

  -- `RIX_SLIST_REMOVE_AFTER` at the last element does nothing.
  pub remove_after-last :
      (at : ℕ) (xs : List ℕ)
      → Holds (h, next) (xs ++ (at ∷ []))
      → remove_after at (h, next) ≡ (h, next)
  unfolding remove_after
  remove_after-last at xs q =
      let (cl, (na, qa, cr)) = Chain-append next xs (at ∷ []) nil q.links in rw qa
