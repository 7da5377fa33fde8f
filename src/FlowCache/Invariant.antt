-- ===== src/FlowCache/Invariant.antt =====
-- What the storage of samples/fcache promises between two calls, and while an entry is in the hands
-- of an operation.
use relative_q.Base.{
  ℕ, ◌≡◌, ◌≢◌, ◌⊎◌, ◌↔◌, ◌+◌, ◌%◌, ◌^◌, ◌≤◌, ◌==◌, if◌then◌else◌, ◌∈◌, List, length, ◌∙◌, sym, ap,
  true,
}
use relative_q.Hash.Cuckoo.{Buckets}
use relative_q.Hash.Cuckoo.Valid.{IsValid, InTable}
use relative_q.Hash.Fingerprint.{FpOps}
use relative_q.Hash.Fingerprint.Laws.{FpLaws, fp_nodes}
use relative_q.Hash.Fingerprint.Find.{Holds}
use relative_q.Hash.Fingerprint.Marked.{IsMarked}
use relative_q.Queue.Slist.Laws as Slist
use relative_q.FlowCache.{Store}

-- The table holds entry `n`.
abbrev pub In : ℕ → Buckets → ℕ → Type 0
In mask t n = (b : ℕ) × (s : ℕ) × InTable mask b s × (n ≢ 0) × (t.idx b s ≡ n)

-- How many entries `out` is.
abbrev pub lent : ℕ → ℕ
lent out = if out == 0 then 0 else 1

module _ {Key : Type 0} (ops : FpOps Key) (mask : ℕ) (laws : FpLaws ops mask) where
  -- Every entry of the pool but `out` is either in the table or free, and a free one has time 0.
  -- `out`, if it is not NULL, is an entry that is in neither.
  pub record IsStore (out : ℕ) (st : Store Key) : Type 0 where
    pub mask_lem : st.head.mask ≡ mask
    pub valid : IsValid (fp_nodes ops st.key mask laws) st.fields.table
    pub marked : IsMarked true ops st.key mask 0 0 st.fields
    pub frees : List ℕ
    pub free_holds : Slist.Holds st.free frees
    pub apart : (n : ℕ) → n ∈ frees → ¬ In mask st.fields.table n
    pub covered :
        (n : ℕ) → n ≢ 0 → n ≢ out → n ≤ st.max_entries → (n ∈ frees) ⊎ In mask st.fields.table n
    pub free_le : (n : ℕ) → n ∈ frees → n ≤ st.max_entries
    pub in_le : (n : ℕ) → In mask st.fields.table n → n ≤ st.max_entries
    pub free_ts : (n : ℕ) → n ∈ frees → st.last_ts n ≡ 0
    pub out_free : ¬ (out ∈ frees)
    pub out_table : ¬ In mask st.fields.table out
    pub out_le : out ≤ st.max_entries
    pub counted : (st.head.nb + length frees + lent out) % 2 ^ 32 ≡ st.max_entries % 2 ^ 32

  -- The entries of the table with time `now` stay, with their keys and this time.
  abbrev pub Spares : ℕ → Store Key → Store Key → Type 0
  Spares now st st' =
      (n : ℕ)
      → In mask st.fields.table n
      → st.last_ts n ≡ now
      → In mask st'.fields.table n × (st'.key n ≡ st.key n) × (st'.last_ts n ≡ now)

  pub Spares-trans :
      (now : ℕ) (a b c : Store Key) → Spares now a b → Spares now b c → Spares now a c
  Spares-trans now a b c p q n i e =
      let (i1, k1, t1) = p n i e in let (i2, k2, t2) = q n i1 t1 in (i2, k2 ∙ k1, t2)

module _ {Key : Type 0} (ops : FpOps Key) (node_key : ℕ → Key) (mask : ℕ) (laws : FpLaws ops mask)
    (t : Buckets) (valid : IsValid (fp_nodes ops node_key mask laws) t) (n : ℕ) where
  pub Holds-In : Holds ops node_key mask t n ↔ In mask t n
  Holds-In = (
    λ (b, s, r, o, ek, ei). (b, s, r, o, ei),
    λ (b, s, r, o, ei). (
      b,
      s,
      r,
      o,
      valid.owned b s r (λ z. o (sym ei ∙ z)) ∙ ap (fp_nodes ops node_key mask laws).tag ei,
      ei,
    ),
  )
