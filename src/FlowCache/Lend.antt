-- ===== src/FlowCache/Lend.antt =====
-- samples/fcache/src/fc_cache_generate.h: an entry between the free list and the table.
use relative_q.Base.{
  ℕ, ◌≡◌, ◌≢◌, ◌⊎◌, subst, inl, inr, refl, ◌==◌, arith, Bool-cases, ◌∈◌, ◌∉◌, contains, List, ◌∷◌,
  ==_iff, sym, true, false, [],
}
use relative_q.Hash.Fingerprint.{FpOps}
use relative_q.Hash.Fingerprint.Laws.{FpLaws}
use relative_q.Queue.Links.{update}
use relative_q.Queue.Slist as Slist
use relative_q.Queue.Chain.Splice.{nil-not_mem_Chain}
use relative_q.Queue.Slist.Laws as SlistLaws
use relative_q.Queue.Slist.Laws.{insert_head-cons, remove_head-tail}
use relative_q.FlowCache.{Store}
use relative_q.FlowCache.Entries.{free_entry, alloc_entry}
use relative_q.FlowCache.Invariant.{In, IsStore, lent}

not_mem : (n : ℕ) (xs : List ℕ) → ¬ (n ∈ xs) → n ∉ xs
not_mem n xs o = elim (Bool-cases (contains n xs)) [ inl e ↦ absurd (o e) | inr e ↦ e ]

mem_cons : (m n : ℕ) (xs : List ℕ) → m ∈ n ∷ xs → (m ≡ n) ⊎ (m ∈ xs)
mem_cons m n xs i = ground arith

mem_tail : (m n : ℕ) (xs : List ℕ) → m ∈ xs → m ∈ n ∷ xs
mem_tail m n xs i = ground arith

mem_head : (m n : ℕ) (xs : List ℕ) → m ≡ n → m ∈ n ∷ xs
mem_head m n xs i = ground arith

pub is_lent : (n : ℕ) → n ≢ 0 → lent n ≡ 1
is_lent n o = ground arith

pub update_hit : (f : ℕ → ℕ) (n v m : ℕ) → m ≡ n → update f n v m ≡ v
update_hit f n v m e = ground arith

pub update_kept : (f : ℕ → ℕ) (n v m : ℕ) → f m ≡ v → update f n v m ≡ v
update_kept f n v m e = ground arith

pub update_other : (f : ℕ → ℕ) (n v m : ℕ) → m ≢ n → update f n v m ≡ f m
update_other f n v m o = ground arith

pub nil_not_mem : (q : Slist.Queue) (xs : List ℕ) → SlistLaws.Holds q xs → ¬ (0 ∈ xs)
nil_not_mem (h, next) xs holds i = let o = nil-not_mem_Chain next xs 0 holds.links in ground arith

module _ {Key : Type 0} (ops : FpOps Key) (mask : ℕ) (laws : FpLaws ops mask) where
  module _ (n : ℕ) (o : n ≢ 0) (st : Store Key) (inv : IsStore ops mask laws n st) where
    -- `free_entry` ends a loan.
    pub free_entry-IsStore : IsStore ops mask laws 0 (free_entry n st)
    unfolding free_entry
    free_entry-IsStore =
        let fresh = not_mem n inv.frees inv.out_free in
        let list =
          insert_head-cons ((st.free).0) ((st.free).1) n inv.frees inv.free_holds o fresh in
        record {
          mask_lem = inv.mask_lem;
          valid = inv.valid;
          marked = inv.marked;
          frees = n ∷ inv.frees;
          free_holds = list.holds;
          apart = λ m i x. elim (mem_cons m n inv.frees i) [
            | inl e ↦ inv.out_table (subst (In mask st.fields.table) e x)
            | inr j ↦ inv.apart m j x
          ];
          covered = λ m z w l. elim (Bool-cases (m == n)) [
            | inl e ↦ inl (mem_head m n inv.frees ((==_iff m n).0 e))
            | inr e ↦ elim (inv.covered m z (ground arith) l) [
              | inl j ↦ inl (mem_tail m n inv.frees j)
              | inr x ↦ inr x
            ]
          ];
          free_le = λ m i. elim (mem_cons m n inv.frees i) [
            | inl e ↦ let l = inv.out_le in omega arith
            | inr j ↦ inv.free_le m j
          ];
          in_le = inv.in_le;
          free_ts = λ m i. elim (mem_cons m n inv.frees i) [
            | inl e ↦ update_hit st.last_ts n 0 m e
            | inr j ↦ update_kept st.last_ts n 0 m (inv.free_ts m j)
          ];
          out_free = nil_not_mem _ _ list.holds;
          out_table = λ (b, s, r, z, e). z refl;
          out_le = omega arith;
          counted = let c = rw (is_lent n o) at inv.counted in omega arith;
        }

  -- What `alloc_entry` gives: NULL, or an entry that is on loan from then on.
  abbrev pub Allocated : Store Key → ℕ × Store Key → Type 0
  Allocated st r =
      (r ≡ (0, st))
      ⊎ ((n : ℕ) × (q : Slist.Queue) × (n ≢ 0)
          × (r ≡ (n, record st { free = q }))
          × IsStore ops mask laws n (record st { free = q }))

  alloc_cases :
      (st : Store Key) (inv : IsStore ops mask laws 0 st) (xs : List ℕ)
      → xs ≡ inv.frees
      → Allocated st (alloc_entry st)
  unfolding alloc_entry
  alloc_cases st inv [] e =
      let z : (st.free).0.first ≡ 0 =
        (subst (SlistLaws.Holds st.free) (sym e) inv.free_holds).first in
      let w : ((st.free).0.first == 0) ≡ true = ground arith in rw w (inl (λ i. (z i, st)))
  alloc_cases st inv (x ∷ xs) e =
      let holds = subst (SlistLaws.Holds st.free) (sym e) inv.free_holds in
      let z : (st.free).0.first ≡ x = holds.first in
      let ne : x ≢ 0 = λ q. nil_not_mem _ _ holds (mem_head 0 x xs (sym q)) in
      let w : ((st.free).0.first == 0) ≡ false = ground arith in
      let mem : (m : ℕ) → m ∈ xs → m ∈ inv.frees =
        λ m i. subst (λ l. m ∈ l) e (mem_tail m x xs i) in
      let here : x ∈ inv.frees = subst (λ l. x ∈ l) e (mem_head x x xs refl) in
      let (d, ds) = holds.distinct in
      let q = Slist.remove_head st.free in
      let path : alloc_entry st ≡ (x, record st { free = q }) =
        rw w (λ i. (z i, record st { free = q })) in
      inr (
        x,
        q,
        ne,
        path,
        record {
          mask_lem = inv.mask_lem;
          valid = inv.valid;
          marked = inv.marked;
          frees = xs;
          free_holds = (remove_head-tail ((st.free).0) ((st.free).1) (x ∷ xs) holds).0;
          apart = λ m i. inv.apart m (mem m i);
          covered = λ m o o' l. elim (inv.covered m o o l) [
            | inl i ↦ elim (mem_cons m x xs (subst (λ l. m ∈ l) (sym e) i)) [
              | inl q ↦ absurd (o' q)
              | inr j ↦ inl j
            ]
            | inr i ↦ inr i
          ];
          free_le = λ m i. inv.free_le m (mem m i);
          in_le = inv.in_le;
          free_ts = λ m i. inv.free_ts m (mem m i);
          out_free = λ i. ground arith;
          out_table = inv.apart x here;
          out_le = inv.free_le x here;
          counted = let c = rw (← e) at inv.counted in rw (is_lent x ne) (omega (arith, c));
        },
      )

  pub alloc_entry-Allocated :
      (st : Store Key) → IsStore ops mask laws 0 st → Allocated st (alloc_entry st)
  alloc_entry-Allocated st inv = alloc_cases st inv inv.frees refl
