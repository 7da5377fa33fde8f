-- ===== src/FlowCache/Evict.antt =====
-- samples/fcache/src/fc_cache_generate.h: evictions, against the slots that they empty.
use relative_q.Base.{
  some, ℕ, ◌≡◌, ◌≢◌, ◌∙◌, sym, subst, inl, inr, refl, arith, Bool, if◌then◌else◌, ◌≤◌, ◌||◌, ltb,
  false, Bool-cases, ◌==◌, ◌<◌, List, ap, ◌∈◌, ◌&&◌, ◌^◌, Distinct, ==_iff, true, contains, ◌∷◌,
  ◌⊎◌, mem_self, ne_of_mem, [],
}
use relative_q.Hash.Cuckoo.{Head, Buckets, set_slot}
use relative_q.Hash.Cuckoo.Slots.{set_slot-cases, is_at}
use relative_q.Hash.Cuckoo.Valid.{InTable}
use relative_q.Hash.Fingerprint.{FpOps, remove_at}
use relative_q.Hash.Fingerprint.Laws.{FpLaws}
use relative_q.FlowCache.{Store}
use relative_q.FlowCache.Entries.{
  evict, free_entry, evict_all, reclaim_bucket_all, scan_bucket_slots, reclaim_bucket,
}
use relative_q.FlowCache.Invariant.{In, IsStore}
use relative_q.FlowCache.Moves.{remove_at-Gone}
use relative_q.FlowCache.Lend.{free_entry-IsStore, update_other}
use relative_q.FlowCache.Scan.{scan-mem, scan-Distinct, scan-victim}
use relative_q.FlowCache.Change.{gone-IsStore}

if_zero : (g h : Bool) (n : ℕ) → n ≡ 0 → (if g then 0 else n) ≡ (if h then 0 else n)
if_zero true true n e = refl
if_zero true false n e = sym e
if_zero false true n e = e
if_zero false false n e = refl

-- Before `expire_before`.
abbrev pub is_expired : {Key : Type 0} → ℕ → Store Key → ℕ → ℕ → Bool
is_expired eb st b s = ltb (st.last_ts (st.fields.table.idx b s)) eb

module _ {Key : Type 0} (ops : FpOps Key) (mask : ℕ) (laws : FpLaws ops mask) where
  -- The storage with the slots emptied that `gone` says; the keys of the pool, and the times of
  -- the entries that stay, are those of before.
  pub record IsEvicted (gone : ℕ → ℕ → Bool) (st st' : Store Key) : Type 0 where
    pub store : IsStore ops mask laws 0 st'
    pub idx_lem :
        (b s : ℕ)
        → InTable mask b s
        → st'.fields.table.idx b s ≡ (if gone b s then 0 else st.fields.table.idx b s)
    pub ts_lem : (n : ℕ) → In mask st'.fields.table n → st'.last_ts n ≡ st.last_ts n
    pub key_lem : st'.key ≡ st.key

  pub IsEvicted-refl :
      (st : Store Key) → IsStore ops mask laws 0 st → IsEvicted (λ b s. false) st st
  IsEvicted-refl st inv = record {
    store = inv;
    idx_lem = λ b s r. refl;
    ts_lem = λ n x. refl;
    key_lem = refl;
  }

  if-if : (g h : Bool) (n : ℕ) → (if h then 0 else if g then 0 else n) ≡ (if g || h then 0 else n)
  if-if true true n = refl
  if-if true false n = refl
  if-if false h n = refl

  -- A slot that still has an entry was not emptied.
  pub IsEvicted-In :
      (g : ℕ → ℕ → Bool) (a b : Store Key)
      → IsEvicted g a b
      → (n : ℕ) → In mask b.fields.table n
      → In mask a.fields.table n
  IsEvicted-In g a b ev n (bk, s, r, o, e) = elim (Bool-cases (g bk s)) [
    | inl w ↦ absurd (o (sym e ∙ ev.idx_lem bk s r ∙ rw w refl))
    | inr w ↦ (bk, s, r, o, sym (ev.idx_lem bk s r ∙ rw w refl) ∙ e)
  ]

  pub IsEvicted-trans :
      (g h : ℕ → ℕ → Bool) (a b c : Store Key)
      → IsEvicted g a b
      → IsEvicted h b c
      → IsEvicted (λ b s. g b s || h b s) a c
  IsEvicted-trans g h a b c p q = record {
    store = q.store;
    idx_lem = λ bk s r.
        q.idx_lem bk s r
        ∙ ap (λ n. if h bk s then 0 else n) (p.idx_lem bk s r)
        ∙ if-if (g bk s) (h bk s) (a.fields.table.idx bk s);
    ts_lem = λ n x. q.ts_lem n x ∙ p.ts_lem n (IsEvicted-In h b c q n x);
    key_lem = q.key_lem ∙ p.key_lem;
  }

  -- Slots are emptied alike where two tests agree on the slots that have an entry.
  pub IsEvicted-ext :
      (g h : ℕ → ℕ → Bool) (a b : Store Key)
      → ((bk s : ℕ) → InTable mask bk s → a.fields.table.idx bk s ≢ 0 → g bk s ≡ h bk s)
      → IsEvicted g a b
      → IsEvicted h a b
  IsEvicted-ext g h a b eq p = record {
    store = p.store;
    idx_lem = λ bk s r. elim (Bool-cases (a.fields.table.idx bk s == 0)) [
      | inl z ↦
          p.idx_lem bk s r ∙ if_zero (g bk s) (h bk s) (a.fields.table.idx bk s) (ground arith)
      | inr z ↦
          p.idx_lem bk s r
          ∙ ap (λ w. if w then 0 else a.fields.table.idx bk s) (eq bk s r (ground arith))
    ];
    ts_lem = p.ts_lem;
    key_lem = p.key_lem;
  }

  module _ (st : Store Key) (inv : IsStore ops mask laws 0 st) (bk slot : ℕ)
      (r : InTable mask bk slot) (o : st.fields.table.idx bk slot ≢ 0) where
    abbrev victim : ℕ
    victim = st.fields.table.idx bk slot

    abbrev taken : ℕ × Head × Buckets → Store Key
    taken q = record st { head = q.1; fields = record st.fields { table = q.2 } }

    evicted :
        (q : ℕ × Head × Buckets)
        → q.0 ≡ victim
        → q.2 ≡ set_slot bk slot 0 0 st.fields.table
        → IsStore ops mask laws victim (taken q)
        → IsEvicted (is_at bk slot) st (free_entry (q.0) (taken q))
    unfolding free_entry
    evicted q en et lent =
        let store : IsStore ops mask laws 0 (free_entry (q.0) (taken q)) =
          subst (λ n. IsStore ops mask laws 0 (free_entry n (taken q))) (sym en)
            (free_entry-IsStore ops mask laws victim o (taken q) lent) in
        record {
          store = store;
          idx_lem = λ b s r'.
              subst
                (λ (t : Buckets).
                  t.idx b s ≡ (if is_at bk slot b s then 0 else st.fields.table.idx b s))
                (sym et)
                (elim (set_slot-cases bk slot 0 0 st.fields.table b s) [
                  | inl (p, q, k, i) ↦ i ∙ ground arith
                  | inr (a, k, i) ↦ i ∙ rw a refl
                ]);
          ts_lem = λ n x.
              update_other st.last_ts (q.0) 0 n
                (λ e. lent.out_table (subst (In mask (q.2)) (e ∙ en) x));
          key_lem = refl;
        }

    pub evict-IsEvicted : IsEvicted (is_at bk slot) st (evict bk slot st)
    unfolding evict
    evict-IsEvicted =
        let q = remove_at bk slot (st.head, st.fields.table) in
        let (en, et, sound, gone) =
          remove_at-Gone ops st.key mask laws st.head inv.mask_lem st.fields inv.valid inv.marked
            victim o bk slot r refl in
        evicted q en et (elim gone [
          | inr (absent, e0, eh, same) ↦ absurd (absent (bk, slot, r, o, refl))
          | inl (x, e0, en', eq) ↦
              gone-IsStore ops mask laws st inv (q.1) (record st.fields { table = q.2 }) (q.0)
                victim sound x en' eq
        ])

  -- Distinct slots that have an entry are emptied.
  evict_all-IsEvicted :
      (bk : ℕ) (slots : List ℕ) (st : Store Key)
      → IsStore ops mask laws 0 st
      → bk ≤ mask
      → Distinct slots
      → ((s : ℕ) → s ∈ slots → (s < 16) × (st.fields.table.idx bk s ≢ 0))
      → IsEvicted (λ b s. (b == bk) && contains s slots) st (evict_all bk slots st)
  unfolding evict_all
  evict_all-IsEvicted bk [] st inv l d ok =
      IsEvicted-ext _ _ st st (λ b s r o. ground arith) (IsEvicted-refl st inv)
  evict_all-IsEvicted bk (s ∷ slots) st inv l (out, d) ok =
      let (u, o) = ok s (mem_self s slots) in
      let one = evict-IsEvicted st inv bk s (l, u) o in
      let mid = evict bk s st in
      let rest = evict_all-IsEvicted bk slots mid one.store l d (λ x i.
        let (u', o') = ok x (ground arith) in
        let ne : (x == s) ≡ false = ne_of_mem x s slots i out in
        (u', λ e. o' (sym (one.idx_lem bk x (l, u') ∙ rw (ne) (ground arith)) ∙ e))) in
      IsEvicted-ext _ _ st (evict_all bk slots mid) (λ b x r o. ground arith)
        (IsEvicted-trans _ _ st mid (evict_all bk slots mid) one rest)

  module _ (st : Store Key) (inv : IsStore ops mask laws 0 st) (bk eb : ℕ) (l : bk ≤ mask) where
    listed :
        (s : ℕ)
        → s ∈ (scan_bucket_slots bk eb st).0
        → (s < 16)
          × (st.fields.table.idx bk s ≢ 0)
          × (ltb (st.last_ts (st.fields.table.idx bk s)) eb ≡ true)
    listed s i =
        let w = sym (scan-mem st bk eb s) ∙ i in (ground arith, (λ z. ground arith), ground arith)

    -- `reclaim_bucket_all` empties the slots of its bucket whose entry has expired, and no other.
    pub reclaim_bucket_all-IsEvicted :
        IsEvicted (λ b s. (b == bk) && is_expired eb st b s) st ((reclaim_bucket_all bk eb st).1)
    unfolding reclaim_bucket_all
    reclaim_bucket_all-IsEvicted =
        let slots = (scan_bucket_slots bk eb st).0 in
        IsEvicted-ext _ _ st (evict_all bk slots st)
          (λ b s (l, u) o. elim (Bool-cases (b == bk)) [
            | inl e ↦
                let q : b ≡ bk = (==_iff b bk).0 e in
                let same : is_expired eb st b s ≡ is_expired eb st bk s =
                  ap (λ b. is_expired eb st b s) q in
                let ne : st.fields.table.idx bk s ≢ 0 =
                  λ z. o (ap (λ b. st.fields.table.idx b s) q ∙ z) in
                let m = scan-mem st bk eb s in ground arith
            | inr e ↦ ground arith
          ])
          (evict_all-IsEvicted bk slots st inv l (scan-Distinct st bk eb)
            (λ s i. let (u, o, e) = listed s i in (u, o)))

    reclaim_bucket-nil : (scan_bucket_slots bk eb st).0 ≡ [] → reclaim_bucket bk eb st ≡ (false, st)
    unfolding reclaim_bucket
    reclaim_bucket-nil e = rw (reclaim_bucket, e) refl

    reclaim_bucket-cons :
        (s : ℕ) (rest : List ℕ) (v : ℕ)
        → (scan_bucket_slots bk eb st).0 ≡ s ∷ rest
        → (scan_bucket_slots bk eb st).1 ≡ some v
        → reclaim_bucket bk eb st ≡ (true, evict bk v st)
    unfolding reclaim_bucket
    reclaim_bucket-cons s rest v e e' = rw (reclaim_bucket, e, e') refl

    -- An entry of the bucket that has expired has gone, which the first component says, or there
    -- is none and nothing changes.
    abbrev pub Reclaimed : Bool × Store Key → Type 0
    Reclaimed r =
        ((r.0 ≡ true)
          × ((v : ℕ) × (v < 16)
              × (st.fields.table.idx bk v ≢ 0)
              × (is_expired eb st bk v ≡ true)
              × IsEvicted (is_at bk v) st (r.1)))
        ⊎ ((r ≡ (false, st))
            × ((s : ℕ) → s < 16 → st.fields.table.idx bk s ≢ 0 → is_expired eb st bk s ≡ false))

    reclaim_cases :
        (slots : List ℕ)
        → eb < 2 ^ 64
        → (scan_bucket_slots bk eb st).0 ≡ slots
        → Reclaimed (reclaim_bucket bk eb st)
    reclaim_cases [] w e = inr (
      reclaim_bucket-nil e,
      λ s u o. let out = ap (contains s) (sym e) in let m = scan-mem st bk eb s in ground arith,
    )
    reclaim_cases (s ∷ rest) w e =
        let (v, e', i) = scan-victim st bk eb s w (subst (λ l. s ∈ l) (sym e) (mem_self s rest)) in
        let (u, o, x) = listed v i in
        subst Reclaimed (sym (reclaim_bucket-cons s rest v e e'))
          (inl (refl, (v, u, o, x, evict-IsEvicted st inv bk v (l, u) o)))

    pub reclaim_bucket-Reclaimed : eb < 2 ^ 64 → Reclaimed (reclaim_bucket bk eb st)
    reclaim_bucket-Reclaimed w = reclaim_cases ((scan_bucket_slots bk eb st).0) w refl
