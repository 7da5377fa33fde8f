-- ===== src/FlowCache/Entries.antt =====
-- samples/fcache/src/fc_cache_generate.h: what moves entries between the table and the free list.
use relative_q.Base.{
  ℕ, zero, suc, ◌+◌, ◌-◌, ◌^◌, ◌==◌, if◌then◌else◌, ◌&&◌, ◌||◌, Bool, true, false, ltb, Option,
  none, some, List, [], ◌∷◌,
}
use relative_q.Hash.Arch.{Hash, entry_sz}
use relative_q.Hash.Cuckoo.{Buckets}
use relative_q.Hash.Fingerprint.{FpOps}
use relative_q.Hash.Fingerprint.SlotTable as SlotTable
use relative_q.Queue.Links.{update}
use relative_q.Queue.Slist as Slist
use relative_q.FlowCache.{Store}

abbrev pub set_key : {Key : Type 0} → (ℕ → Key) → ℕ → Key → ℕ → Key
set_key f n k m = if m == n then k else f m

-- `memset` of the buckets and of the pool.
unfoldable pub clear_buckets : ℕ → Buckets → Buckets
clear_buckets nb_bk t = record {
  key = λ b s. if ltb b nb_bk then 0 else t.key b s;
  idx = λ b s. if ltb b nb_bk then 0 else t.idx b s;
}

abbrev pub clear_pool {ℓ} : {A : Type ℓ} → ℕ → A → (ℕ → A) → ℕ → A
clear_pool max_entries z f n = if (n == 0) || ltb max_entries n then f n else z

-- The loop that frees the whole pool, with `n` entries left behind the first `i`.
unfoldable pub free_loop : ℕ → ℕ → Slist.Queue → Slist.Queue
free_loop zero i free = free
free_loop (suc n) i free = free_loop n (i + 1) (Slist.insert_head (i + 1) free)

module _ {Key : Type 0} where
  -- The slots of a bucket that hold an entry, with `n` slots left from `s` on.
  unfoldable pub used_slots : ℕ → ℕ → ℕ → Store Key → List ℕ
  used_slots zero s bk st = []
  used_slots (suc n) s bk st =
      let rest = used_slots n (s + 1) bk st in
      if st.fields.table.idx bk s == 0 then rest else s ∷ rest

  -- The loop over the used slots: those whose entry has expired, and the slot of the oldest one.
  -- It goes through them in order; its stages of four only say when an entry is prefetched.
  unfoldable pub scan_loop : ℕ → ℕ → Store Key → List ℕ → ℕ → Option ℕ → List ℕ × Option ℕ
  scan_loop bk expire_before st [] oldest_ts oldest = ([], oldest)
  scan_loop bk expire_before st (s ∷ slots) oldest_ts oldest =
      let ts = st.last_ts (st.fields.table.idx bk s) in
      let expired = ltb ts expire_before in
      let older = expired && ltb ts oldest_ts in
      let (rest, victim) =
        scan_loop bk expire_before st slots (if older then ts else oldest_ts)
          (if older then some s else oldest) in
      (if expired then s ∷ rest else rest, victim)

  unfoldable pub scan_bucket_slots : ℕ → ℕ → Store Key → List ℕ × Option ℕ
  scan_bucket_slots bk expire_before st =
      scan_loop bk expire_before st (used_slots entry_sz 0 bk st) (2 ^ 64 - 1) none

  -- NULL is 0.
  unfoldable pub alloc_entry : Store Key → ℕ × Store Key
  alloc_entry st =
      let entry = (st.free).0.first in
      if entry == 0 then (entry, st) else (entry, record st { free = Slist.remove_head st.free })

  unfoldable pub free_entry : ℕ → Store Key → Store Key
  free_entry entry st = record st {
    last_ts = update st.last_ts entry 0;
    free = Slist.insert_head entry st.free;
  }

  -- `remove_at` and `free_entry` of the entry that was there.
  unfoldable pub evict : ℕ → ℕ → Store Key → Store Key
  evict bk slot st =
      let (removed, h, t) = SlotTable.remove_at bk slot (st.head, st.fields.table) in
      free_entry removed (record st { head = h; fields = record st.fields { table = t } })

  -- The oldest expired entry of a bucket goes. A victim's slot of -1 is the largest `unsigned`.
  unfoldable pub reclaim_bucket : ℕ → ℕ → Store Key → Bool × Store Key
  reclaim_bucket bk expire_before st =
      let (expired, victim) = scan_bucket_slots bk expire_before st in
      elim expired [
        | [] ↦ (false, st)
        | s ∷ rest ↦ (true, evict bk (elim victim [ some v ↦ v | none ↦ 2 ^ 32 - 1 ]) st)
      ]

  unfoldable pub evict_all : ℕ → List ℕ → Store Key → Store Key
  evict_all bk [] st = st
  evict_all bk (s ∷ slots) st = evict_all bk slots (evict bk s st)

  -- Every expired entry of a bucket goes; how many is the first component.
  unfoldable pub reclaim_bucket_all : ℕ → ℕ → Store Key → List ℕ × Store Key
  reclaim_bucket_all bk expire_before st =
      let (expired, victim) = scan_bucket_slots bk expire_before st in
      (expired, evict_all bk expired st)

  -- The storage after `init`, whatever was in the memory before.
  unfoldable pub init_store : Key → ℕ → ℕ → Store Key → Store Key
  init_store zero_key nb_bk max_entries was =
      let f = was.fields in
      record {
        head = SlotTable.init nb_bk;
        fields = record {
          table = clear_buckets nb_bk f.table;
          hash_field = clear_pool max_entries 0 f.hash_field;
          slot_field = clear_pool max_entries 0 f.slot_field;
        };
        key = clear_pool max_entries zero_key was.key;
        last_ts = clear_pool max_entries 0 was.last_ts;
        free =
            free_loop max_entries 0
              (Slist.init ((was.free).0), clear_pool max_entries 0 ((was.free).1));
        nb_bk = nb_bk;
        max_entries = max_entries;
      }

  unfoldable pub flush_loop : ℕ → ℕ → Store Key → Store Key
  flush_loop zero i st = st
  flush_loop (suc n) i st = flush_loop n (i + 1) (record st {
    last_ts = update st.last_ts (i + 1) 0;
    free = Slist.insert_head (i + 1) st.free;
  })

  unfoldable pub flush : Store Key → Store Key
  flush st = flush_loop st.max_entries 0 (record st {
    head = SlotTable.init st.nb_bk;
    fields = record st.fields { table = clear_buckets st.nb_bk st.fields.table };
    free = (Slist.init ((st.free).0), (st.free).1);
  })

  unfoldable pub nb_entries : Store Key → ℕ
  nb_entries st = st.head.nb

module _ {Key : Type 0} (ops : FpOps Key) where
  -- What becomes of an entry that is taken from the free list: its key and time are written and
  -- `insert_hashed` gives NULL, a node with the key, or the entry back.
  unfoldable pub store_entry : ℕ → Hash → Key → ℕ → Store Key → ℕ × Store Key
  store_entry entry hash key now st =
      let node_key = set_key st.key entry key in
      let (ret, h, f) = SlotTable.insert_hashed ops node_key hash entry st.head st.fields in
      (
        ret,
        record st { head = h; fields = f; key = node_key; last_ts = update st.last_ts entry now },
      )

  -- `remove_idx`: whether an entry went.
  unfoldable pub remove_idx : ℕ → Store Key → Bool × Store Key
  remove_idx entry st =
      let (n, h, f) = SlotTable.remove ops st.key entry st.head st.fields in
      if (entry == 0) || ltb st.max_entries entry
      then (false, st)
      else if n == 0
      then (false, record st { head = h; fields = f })
      else (true, free_entry entry (record st { head = h; fields = f }))

  -- A round of `del_idx_bulk`, whose `remove` is not looked at.
  unfoldable pub del_idx : ℕ → Store Key → Store Key
  del_idx entry st =
      let (n, h, f) = SlotTable.remove ops st.key entry st.head st.fields in
      if (entry == 0) || ltb st.max_entries entry
      then st
      else if st.last_ts entry == 0
      then st
      else free_entry entry (record st { head = h; fields = f })
