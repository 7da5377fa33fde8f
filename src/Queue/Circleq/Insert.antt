-- ===== src/Queue/Circleq/Insert.antt =====
-- The insertions of RIX_CIRCLEQ against the list of the elements.
use mathlib.Core.List.{append_assoc}
use relative_q.Base.{
  ℕ, ◌≡◌, List, ◌∉◌, ◌≢◌, ◌∷◌, ◌==◌, false, Distinct, [], ◌++◌, arith, last_or, Distinct-rotate, ap,
  refl, ne-last_or_out, ne-head_or, mem_self, head_or, not-mem-rotate, Distinct-append, ◌∙◌,
  not-mem-append, sym, head_or-append, ◌∈◌, mem_middle, ne_of_not_mem_symm, last_or-append, subst,
  if◌then◌else◌, if-first, Disjoint-symm, Distinct-insert, contains-append,
}
use relative_q.Queue.Links.{Links, nil}
use relative_q.Queue.Links.Splice.{Linked, SameOutside}
use relative_q.Queue.Circleq.{
  Head, is_empty, link_alone, link_first, insert_head, insert_tail, insert_after, insert_before,
}
use relative_q.Queue.Circleq.Ring.{Ring, Holds, Becomes, Ring-rotate, enter-Ring, Linked-same}

module _ (e : ℕ) (m : Links) where
  link_first-Linked :
      (l r : ℕ)
      → m.prev r ≡ l
      → (l == e) ≡ false
      → (r == e) ≡ false
      → Linked m (link_first e r m) l e r
  unfolding link_first
  link_first-Linked l r p ol or = record {
    next = λ a na. ground arith;
    prev = λ a na. ground arith;
  }

  link_alone-Ring : e ≢ nil → Ring (link_alone e m) (e ∷ [])
  unfolding link_alone
  link_alone-Ring ne = (ne, ground arith, ground arith, tt)

  link_alone-same :
      (a : ℕ)
      → a ∉ e ∷ []
      → ((link_alone e m).next a ≡ m.next a) × ((link_alone e m).prev a ≡ m.prev a)
  unfolding link_alone
  link_alone-same a o = (ground arith, ground arith)

  module _ (h : Head) where
    insert_after-Linked :
        (at r : ℕ)
        → m.next at ≡ r
        → (at == e) ≡ false
        → (r == e) ≡ false
        → Linked m (insert_after at e (h, m)).1 at e r
    unfolding insert_after
    insert_after-Linked at r p oa or = record {
      next = λ a na. ground arith;
      prev = λ a na. ground arith;
    }

    insert_before-Linked :
        (at l : ℕ)
        → m.prev at ≡ l
        → (at == e) ≡ false
        → (l == e) ≡ false
        → Linked m (insert_before at e (h, m)).1 l e at
    unfolding insert_before
    insert_before-Linked at l p oa ol = record {
      next = λ a na. ground arith;
      prev = λ a na. ground arith;
    }

    insert_after-first : (at : ℕ) → (insert_after at e (h, m)).0.first ≡ h.first
    unfolding insert_after
    insert_after-first at = refl

    insert_before-first :
        (at : ℕ) → (insert_before at e (h, m)).0.first ≡ (if h.first == at then e else h.first)
    unfolding insert_before
    insert_before-first at = ground arith

    insert_head-alone :
        h.first ≡ nil → insert_head e (h, m) ≡ (record { first = e }, link_alone e m)
    unfolding insert_head is_empty
    insert_head-alone z = rw z

    insert_head-others :
        (x : ℕ)
        → h.first ≡ x
        → (x == nil) ≡ false
        → insert_head e (h, m) ≡ (record { first = e }, link_first e x m)
    unfolding insert_head is_empty
    insert_head-others x p z = rw (p, z)

    insert_tail-alone :
        h.first ≡ nil → insert_tail e (h, m) ≡ (record { first = e }, link_alone e m)
    unfolding insert_tail is_empty
    insert_tail-alone z = rw z

    insert_tail-others :
        (x : ℕ)
        → h.first ≡ x
        → (x == nil) ≡ false
        → insert_tail e (h, m) ≡ (record { first = x }, link_first e x m)
    unfolding insert_tail is_empty
    insert_tail-others x p z = rw (p, z)

  link_first-Holds :
      (x : ℕ) (xs : List ℕ)
      → Ring m (x ∷ xs)
      → Distinct (x ∷ xs)
      → e ≢ nil
      → e ∉ x ∷ xs
      → Ring (link_first e x m) (e ∷ x ∷ xs)
        × SameOutside (e ∷ m.prev x ∷ x ∷ []) m (link_first e x m)
  link_first-Holds x xs r d ne o =
      let w : Linked m (link_first e x m) (last_or x xs) e x =
        link_first-Linked (last_or x xs) x r.1 (ne-last_or_out e nil (x ∷ xs) ne o)
          (ne-head_or e (x ∷ xs) nil ne o) in
      (
        enter-Ring m (link_first e x m) e x (x ∷ xs) (mem_self x xs) w r d ne o,
        rw r.1 (Linked-same m (link_first e x m) (last_or x xs) e x w),
      )

module _ (e : ℕ) (h : Head) (m : Links) (ne : e ≢ nil) where
  -- `RIX_CIRCLEQ_INSERT_HEAD` of an element that is not queued puts it in front of the others, and
  -- writes only its links and those of its two neighbours.
  pub insert_head-Circleq :
      (xs : List ℕ)
      → Holds (h, m) xs
      → e ∉ xs
      → Becomes m (e ∷ m.prev h.first ∷ h.first ∷ []) (e ∷ xs) (insert_head e (h, m))
  insert_head-Circleq [] q o = rw (insert_head-alone e m h q.first) (record {
    holds = record { first = refl; links = link_alone-Ring e m ne; distinct = (refl, tt) };
    same = λ a n o'. link_alone-same e m a (ground arith);
  })
  insert_head-Circleq (x ∷ xs) q o =
      let (r, s) = link_first-Holds e m x xs q.links q.distinct ne o in
      rw (insert_head-others e m h x q.first (ground arith)) (record {
        holds = record { first = refl; links = r; distinct = (o, q.distinct) };
        same = λ a n o'. s a n (rw (ap m.prev q.first, q.first) at o');
      })

  -- `RIX_CIRCLEQ_INSERT_TAIL` of an element that is not queued puts it behind the others, and
  -- writes only its links and those of its two neighbours.
  pub insert_tail-append :
      (xs : List ℕ)
      → Holds (h, m) xs
      → e ∉ xs
      → Becomes m (e ∷ m.prev h.first ∷ h.first ∷ []) (xs ++ (e ∷ [])) (insert_tail e (h, m))
  insert_tail-append [] q o = rw (insert_tail-alone e m h q.first) (record {
    holds = record { first = refl; links = link_alone-Ring e m ne; distinct = (refl, tt) };
    same = λ a n o'. link_alone-same e m a (ground arith);
  })
  insert_tail-append (x ∷ xs) q o =
      let (r, s) = link_first-Holds e m x xs q.links q.distinct ne o in
      rw (insert_tail-others e m h x q.first (ground arith)) (record {
        holds = record {
          first = refl;
          links = Ring-rotate (link_first e x m) (e ∷ []) (x ∷ xs) r;
          distinct = Distinct-rotate (e ∷ []) (x ∷ xs) (o, q.distinct);
        };
        same = λ a n o'. s a n (rw (ap m.prev q.first, q.first) at o');
      })

  module _ (at : ℕ) (xs ys : List ℕ) (q : Holds (h, m) (xs ++ (at ∷ ys)))
      (o : e ∉ xs ++ (at ∷ ys)) where
    -- `RIX_CIRCLEQ_INSERT_AFTER` puts an element that is not queued right behind the element `at`,
    -- and writes only its links and those of its two neighbours.
    pub insert_after-splice :
        Becomes m (e ∷ at ∷ m.next at ∷ []) (xs ++ (at ∷ e ∷ ys)) (insert_after at e (h, m))
    insert_after-splice =
        let w =
          insert_after-Linked e m h at (head_or zs nil) next
            (ne_of_not_mem_symm e at (xs ++ (at ∷ ys)) o (mem_middle at xs ys))
            (ne-head_or e zs nil ne oz) in
        let w' : Linked m (insert_after at e (h, m)).1 (last_or nil zs) e (head_or zs nil) =
          rw (last_or-append) w in
        let r = enter-Ring m _ e at zs mz w' (Ring-rotate m (at ∷ []) (ys ++ xs) ring) dz ne oz in
        let m' = (insert_after at e (h, m)).1 in
        let back : Ring m' (xs ++ (at ∷ e ∷ ys)) =
          subst (Ring m') (append_assoc xs (at ∷ []) (e ∷ ys)) (
            Ring-rotate m' (e ∷ ys) (xs ++ (at ∷ []))
              (subst (λ l. Ring m' (e ∷ l)) (append_assoc ys xs (at ∷ [])) r)) in
        record {
          holds = record {
            first =
                insert_after-first e m h at ∙ q.first ∙ rw (head_or-append, head_or-append) refl;
            links = back;
            distinct = rw (← append_assoc xs (at ∷ []) (e ∷ ys)) (
                Distinct-insert e (xs ++ (at ∷ [])) ys
                  (rw (append_assoc xs (at ∷ []) ys) q.distinct)
                  (ground (arith, contains-append e xs (at ∷ ys), contains-append e xs (at ∷ [])))
                  (ground (arith, contains-append e xs (at ∷ ys))));
          };
          same = λ a n o'. Linked-same m m' at e (m.next at) (rw next w) a n o';
        }
      where
        zs : List ℕ
        zs = (ys ++ xs) ++ (at ∷ [])

        ring : Ring m (at ∷ (ys ++ xs))
        ring = Ring-rotate m xs (at ∷ ys) q.links

        next : m.next at ≡ head_or zs nil
        next = ring.2 ∙ sym (head_or-append (ys ++ xs) (at ∷ []) nil)

        dz : Distinct zs
        dz = Distinct-rotate (at ∷ []) (ys ++ xs) (Distinct-rotate xs (at ∷ ys) q.distinct)

        oz : e ∉ zs
        oz = not-mem-rotate e (at ∷ []) (ys ++ xs) (not-mem-rotate e xs (at ∷ ys) o)

        mz : at ∈ zs
        mz = mem_middle at (ys ++ xs) []

    -- `RIX_CIRCLEQ_INSERT_BEFORE` puts an element that is not queued right before the element `at`,
    -- in front of the queue if `at` is the first, and writes only its links and those of its two
    -- neighbours.
    pub insert_before-Circleq :
        Becomes m (e ∷ m.prev at ∷ at ∷ []) (xs ++ (e ∷ at ∷ ys)) (insert_before at e (h, m))
    insert_before-Circleq =
        let ring = Ring-rotate m xs (at ∷ ys) q.links in
        let zs = at ∷ (ys ++ xs) in
        let m' = (insert_before at e (h, m)).1 in
        let oz = not-mem-rotate e xs (at ∷ ys) o in
        let dz = Distinct-rotate xs (at ∷ ys) q.distinct in
        let (dx, dr, apart) = Distinct-append xs (at ∷ ys) q.distinct in
        let (ox, oy) = not-mem-append e xs (at ∷ ys) o in
        let w : Linked m m' (last_or nil zs) e at =
          insert_before-Linked e m h at (last_or nil zs) ring.1 (ground arith)
            (ne-last_or_out e nil zs ne oz) in
        let r = enter-Ring m m' e at zs (mem_self at (ys ++ xs)) w ring dz ne oz in
        record {
          holds = record {
            first =
                insert_before-first e m h at
                ∙ rw (q.first, head_or-append, head_or-append)
                    (if-first e at xs (Disjoint-symm xs (at ∷ ys) apart at (mem_self at ys)));
            links = Ring-rotate m' (e ∷ at ∷ ys) xs r;
            distinct = Distinct-insert e xs (at ∷ ys) q.distinct ox oy;
          };
          same = λ a n o'. Linked-same m m' (m.prev at) e at (rw (ring.1) w) a n o';
        }
