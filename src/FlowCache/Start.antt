-- ===== src/FlowCache/Start.antt =====
-- samples/fcache/src/fc_cache_generate.h: the storage that `init` and `flush` leave.
use relative_q.Base.{
  ℕ, zero, suc, ◌≡◌, ◌<◌, ◌+◌, ◌-◌, ◌^◌, ◌%◌, ◌∙◌, sym, ap, subst, inl, inr, refl, true, false,
  Bool-cases, ◌==◌, ==_iff, arith, List, [], ◌∷◌, contains, length, ltb, not, ◌&&◌, ◌∈◌, ◌∉◌, ◌||◌,
}
use relative_q.Hash.Cuckoo.{Head, Buckets}
use relative_q.Hash.Cuckoo.Valid.{InTable}
use relative_q.Hash.Fingerprint.{FpOps, init}
use relative_q.Hash.Fingerprint.Laws.{FpLaws}
use relative_q.Hash.Fingerprint.Fields.{Fields}
use relative_q.Queue.Links.{update}
use relative_q.Queue.Slist as Slist
use relative_q.Queue.Slist.Laws as SlistLaws
use relative_q.Queue.Slist.Laws.{insert_head-cons}
use relative_q.FlowCache.{Store}
use relative_q.FlowCache.Entries.{init_store, flush, flush_loop, free_loop, clear_buckets}
use relative_q.FlowCache.Lend.{update_hit, update_kept}
use relative_q.FlowCache.Invariant.{In, IsStore}

-- The entries `n` to 1.
abbrev pub down : ℕ → List ℕ
down zero = []
down (suc n) = suc n ∷ down n

down-mem : (m n : ℕ) → contains m (down n) ≡ (not (m == 0) && not (ltb n m))
down-mem m zero = ground arith
down-mem m (suc n) = ground (arith, down-mem m n)

length-down : (n : ℕ) → length (down n) ≡ n
length-down zero = refl
length-down (suc n) = ap suc (length-down n)

zero_add : (n : ℕ) → 0 + n ≡ n
zero_add n = omega arith

down_back : (m i : ℕ) → m ∈ down (i + 1) → (m == i + 1) ≡ false → m ∈ down i
down_back m i j e = let k = sym (down-mem m (i + 1)) ∙ j in down-mem m i ∙ ground arith

down_next : (i : ℕ) → down (i + 1) ≡ (i + 1) ∷ down i
down_next i = let e : i + 1 ≡ suc i = omega arith in rw e refl

-- One more entry in front of a free list.
push_next :
    (i : ℕ) (q : Slist.Queue)
    → SlistLaws.Holds q (down i)
    → SlistLaws.Holds (Slist.insert_head (i + 1) q) (down (i + 1))
push_next i (h, next) holds =
    let out : (i + 1) ∉ down i = down-mem (i + 1) i ∙ ground arith in
    subst (SlistLaws.Holds (Slist.insert_head (i + 1) (h, next))) (sym (down_next i))
      ((insert_head-cons h next (i + 1) (down i) holds (omega arith) out).holds)

free_loop-Holds :
    (n i : ℕ) (q : Slist.Queue)
    → SlistLaws.Holds q (down i)
    → SlistLaws.Holds (free_loop n i q) (down (i + n))
unfolding free_loop
free_loop-Holds zero i q holds = subst (λ m. SlistLaws.Holds q (down m)) (omega arith) holds
free_loop-Holds (suc n) i q holds =
    subst (λ m. SlistLaws.Holds (free_loop n (i + 1) (Slist.insert_head (i + 1) q)) (down m))
      (omega arith) (free_loop-Holds n (i + 1) (Slist.insert_head (i + 1) q) (push_next i q holds))

empty_list : (h : Slist.Head) (next : ℕ → ℕ) → SlistLaws.Holds (Slist.init h, next) (down 0)
unfolding Slist.init
empty_list h next = record { first = refl; links = tt; distinct = tt }

module _ {Key : Type 0} (ops : FpOps Key) (mask : ℕ) (laws : FpLaws ops mask) where
  -- A table without entries, with a pool of `max_entries` that is wholly free.
  pub record IsEmpty (max_entries : ℕ) (st : Store Key) : Type 0 where
    pub store : IsStore ops mask laws 0 st
    pub size_lem : st.max_entries ≡ max_entries
    pub nb_lem : st.head.nb ≡ 0
    pub clear :
        (b s : ℕ) → InTable mask b s → (st.fields.table.idx b s ≡ 0) × (st.fields.table.key b s ≡ 0)
    pub free_holds : SlistLaws.Holds st.free (down max_entries)
    pub ts_lem : (n : ℕ) → n ∈ down max_entries → st.last_ts n ≡ 0

  cleared-IsStore :
      (max_entries : ℕ) (st : Store Key)
      → st.max_entries ≡ max_entries
      → st.head.mask ≡ mask
      → st.head.nb ≡ 0
      → ((b s : ℕ)
          → InTable mask b s
          → (st.fields.table.idx b s ≡ 0) × (st.fields.table.key b s ≡ 0))
      → SlistLaws.Holds st.free (down max_entries)
      → ((n : ℕ) → n ∈ down max_entries → st.last_ts n ≡ 0)
      → IsStore ops mask laws 0 st
  cleared-IsStore max_entries st ex em en clear holds ts =
      let nothing : (n : ℕ) → ¬ In mask st.fields.table n =
        λ n (b, s, r, o, e). o (sym e ∙ (clear b s r).0) in
      record {
        mask_lem = em;
        valid = record {
          empty = λ b s r e. (clear b s r).1;
          full = λ b s r o. absurd (o ((clear b s r).0));
          owned = λ b s r o. absurd (o ((clear b s r).0));
          placed = λ b s r o. absurd (o ((clear b s r).0));
          unique = λ b s b' s' r r' o o' q. absurd (o ((clear b s r).0));
        };
        marked = record {
          bucket_of = λ b s r o. absurd (o ((clear b s r).0));
          hash_of = λ b s r o. absurd (o ((clear b s r).0));
          slot_of = λ b s r o. absurd (o ((clear b s r).0));
          apart = λ b s r x. absurd (x refl);
          kept = λ x. absurd (x refl);
        };
        frees = down max_entries;
        free_holds = holds;
        apart = λ n i x. nothing n x;
        covered = λ n z w l. inl (down-mem n max_entries ∙ ground (arith, ex));
        free_le = λ n i. let m = sym (down-mem n max_entries) ∙ i in ground (arith, ex);
        in_le = λ n x. absurd (nothing n x);
        free_ts = ts;
        out_free = λ i. let m = sym (down-mem 0 max_entries) ∙ i in ground arith;
        out_table = nothing 0;
        out_le = omega arith;
        counted = rw (en, ex, length-down max_entries) (ap (λ n. n % 2 ^ 32) (omega arith));
      }

  cleared-IsEmpty :
      (max_entries : ℕ) (st : Store Key)
      → st.max_entries ≡ max_entries
      → st.head.mask ≡ mask
      → st.head.nb ≡ 0
      → ((b s : ℕ)
          → InTable mask b s
          → (st.fields.table.idx b s ≡ 0) × (st.fields.table.key b s ≡ 0))
      → SlistLaws.Holds st.free (down max_entries)
      → ((n : ℕ) → n ∈ down max_entries → st.last_ts n ≡ 0)
      → IsEmpty max_entries st
  cleared-IsEmpty max_entries st ex em en clear holds ts = record {
    store = cleared-IsStore max_entries st ex em en clear holds ts;
    size_lem = ex;
    nb_lem = en;
    clear = clear;
    free_holds = holds;
    ts_lem = ts;
  }

  clear_slot :
      (nb_bk : ℕ) (t : Buckets) (b s : ℕ)
      → b < nb_bk
      → ((clear_buckets nb_bk t).idx b s ≡ 0) × ((clear_buckets nb_bk t).key b s ≡ 0)
  unfolding clear_buckets
  clear_slot nb_bk t b s l = let e : ltb b nb_bk ≡ true = ground arith in rw e (refl, refl)

  module _ (nb_bk : ℕ) (p : 0 < nb_bk) (l : nb_bk < 2 ^ 32) (em : mask ≡ nb_bk - 1) where
    init_mask : (init nb_bk).mask ≡ mask
    unfolding init
    init_mask = omega (arith, em)

    in_bounds : (b s : ℕ) → InTable mask b s → b < nb_bk
    in_bounds b s r = let u = r.0 in omega (arith, em, u)

    -- `init` makes storage that keeps its promises of any memory, for a number of buckets from 1 to
    -- 2^32 - 1 that is one more than the mask: the table has no entry and counts none, and the free
    -- list holds the whole pool, whose times are 0.
    pub init_store-IsEmpty :
        (zero_key : Key) (max_entries : ℕ) (was : Store Key)
        → IsEmpty max_entries (init_store zero_key nb_bk max_entries was)
    unfolding init_store init
    init_store-IsEmpty zero_key max_entries was =
        cleared-IsEmpty max_entries (init_store zero_key nb_bk max_entries was) refl init_mask refl
          (λ b s r. clear_slot nb_bk was.fields.table b s (in_bounds b s r))
          (subst (λ n. SlistLaws.Holds (init_store zero_key nb_bk max_entries was).free (down n))
            (zero_add max_entries) (free_loop-Holds max_entries 0 _ (empty_list _ _)))
          (λ n i.
            let m = sym (down-mem n max_entries) ∙ i in
            let out : ((n == 0) || ltb max_entries n) ≡ false = ground arith in rw out refl)

    -- The loop of `flush` frees the pool and clears the times.
    abbrev Flushed : ℕ → Store Key → Store Key → Type 0
    Flushed n a b =
        (b.head ≡ a.head)
        × (b.fields ≡ a.fields)
        × (b.max_entries ≡ a.max_entries)
        × SlistLaws.Holds b.free (down n)
        × ((m : ℕ) → m ∈ down n → b.last_ts m ≡ 0)

    flush_loop-Flushed :
        (n i : ℕ) (st : Store Key)
        → SlistLaws.Holds st.free (down i)
        → ((m : ℕ) → m ∈ down i → st.last_ts m ≡ 0)
        → Flushed (i + n) st (flush_loop n i st)
    unfolding flush_loop
    flush_loop-Flushed zero i st holds ts =
        let e : i ≡ i + 0 = omega arith in
        subst (λ k. Flushed k st st) e (refl, refl, refl, holds, ts)
    flush_loop-Flushed (suc n) i st holds ts =
        let e : i + 1 + n ≡ i + suc n = omega arith in
        let st1 : Store Key = record st {
          last_ts = update st.last_ts (i + 1) 0;
          free = Slist.insert_head (i + 1) st.free;
        } in
        subst (λ k. Flushed k st (flush_loop n (i + 1) st1)) e
          (flush_loop-Flushed n (i + 1) st1 (push_next i st.free holds) (λ m j.
            elim (Bool-cases (m == i + 1)) [
              | inl q ↦ update_hit st.last_ts (i + 1) 0 m ((==_iff m (i + 1)).0 q)
              | inr q ↦ update_kept st.last_ts (i + 1) 0 m (ts m (down_back m i j q))
            ]))

    -- `flush` makes storage that keeps its promises of any storage with this number of buckets, from
    -- 1 to 2^32 - 1 and one more than the mask: the table has no entry and counts none, and the free
    -- list holds the whole pool, whose times are 0.
    pub flush-IsEmpty : (st : Store Key) → st.nb_bk ≡ nb_bk → IsEmpty st.max_entries (flush st)
    unfolding flush init
    flush-IsEmpty st eb =
        let st1 : Store Key = record st {
          head = init st.nb_bk;
          fields = record st.fields { table = clear_buckets st.nb_bk st.fields.table };
          free = (Slist.init ((st.free).0), (st.free).1);
        } in
        let (eh, ef, ex, holds, ts) =
          flush_loop-Flushed st.max_entries 0 st1 (empty_list _ _) (λ m i. cc) in
        cleared-IsEmpty st.max_entries (flush st) ex
          (ap (λ (h : Head). h.mask) eh ∙ ap (λ n. (init n).mask) eb ∙ init_mask)
          (ap (λ (h : Head). h.nb) eh)
          (λ b s r.
            subst (λ (f : Fields). (f.table.idx b s ≡ 0) × (f.table.key b s ≡ 0)) (sym ef)
              (clear_slot st.nb_bk st.fields.table b s
                (subst (λ n. b < n) (sym eb) (in_bounds b s r))))
          (subst (λ n. SlistLaws.Holds (flush st).free (down n)) (zero_add st.max_entries) holds)
          (subst (λ n. (m : ℕ) → m ∈ down n → (flush st).last_ts m ≡ 0) (zero_add st.max_entries)
            ts)
