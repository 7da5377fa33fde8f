-- ===== src/Hash/Table64/Laws.antt =====
-- The table for 64-bit keys as its callers see it.
use relative_q.Base.{ℕ, ◌≡◌, ◌≢◌, ◌==◌, if◌then◌else◌}
use relative_q.Hash.Arch.{Arch, ArchLaws, find_u32x16_gen, find_u64x16_gen}
use relative_q.Hash.Cuckoo.{Head, Buckets}
use relative_q.Hash.Cuckoo.Valid.{IsValid, NodeInfo}
use relative_q.Hash.KeyTable.{FindCtx, OpsLaws, ops64, ops32, scheme}
use relative_q.Hash.KeyTable.Bounds.{key_nodes}
use relative_q.Hash.KeyTable.Client.{find-insert, find-remove}
use relative_q.Hash.KeyTable.Insert.{Outcome, insert-Outcome}
use relative_q.Hash.Table64.{find, insert, remove}

pub ops32_laws : {arch : Arch} → ArchLaws arch → OpsLaws (ops32 arch)
ops32_laws laws = record {
  find_key_lem = laws.find_u32x16_lem;
  find_idx_lem = laws.find_u32x16_lem;
}

pub ops64_laws : {arch : Arch} → ArchLaws arch → OpsLaws (ops64 arch)
unfolding find_u32x16_gen find_u64x16_gen
ops64_laws laws = record {
  find_key_lem = λ arr val. laws.find_u64x16_lem arr val;
  find_idx_lem = laws.find_u32x16_lem;
}

-- What a node is to the table, `node_key` being its key field.
abbrev pub nodes64 :
    (arch : Arch) → ArchLaws arch → (iv mask : ℕ) → (ℕ → ℕ) → NodeInfo (scheme (ops64 arch) iv) mask
nodes64 arch laws iv mask node_key = key_nodes (ops64 arch) (ops64_laws laws) iv mask node_key

module _ (arch : Arch) (laws : ArchLaws arch) (iv : ℕ) (node_key : ℕ → ℕ) (h : Head) (t : Buckets)
    (valid : IsValid (nodes64 arch laws iv h.mask node_key) t) (elm : ℕ) (o : elm ≢ 0) where
  -- After an `insert` into a valid table that gave NULL, of a node whose key is not the invalid
  -- one, `find` gives that node under its key and under every other key what it gave before.
  pub find-insert64 :
      (ctx : FindCtx) (key : ℕ)
      → node_key elm ≢ iv
      → (insert arch iv elm (node_key elm) (h, t)).0 ≡ 0
      → find arch ctx
          ((insert arch iv elm (node_key elm) (h, t)).1)
          ((insert arch iv elm (node_key elm) (h, t)).2)
          key
        ≡ (if key == node_key elm then elm else find arch ctx h t key)
  find-insert64 ctx key ok z =
      find-insert (ops64 arch) (ops64_laws laws) iv node_key h t valid ctx elm o key ok z

  -- After a `remove` from a valid table that gave the node back, `find` gives NULL under its key
  -- and under every other key what it gave before.
  pub find-remove64 :
      (ctx : FindCtx) (key : ℕ)
      → (remove arch iv elm (node_key elm) (h, t)).0 ≡ elm
      → find arch ctx
          ((remove arch iv elm (node_key elm) (h, t)).1)
          ((remove arch iv elm (node_key elm) (h, t)).2)
          key
        ≡ (if key == node_key elm then 0 else find arch ctx h t key)
  find-remove64 ctx key z =
      find-remove (ops64 arch) (ops64_laws laws) iv node_key h t valid ctx elm o key z

  -- `insert` into a valid table, of a node whose key is not the invalid one: its key is there and
  -- nothing changes, or the node is stored beside all others, or the table is full and keeps its
  -- nodes. In each case the table is valid afterwards.
  pub insert-Outcome64 :
      node_key elm ≢ iv
      → Outcome
          (ops64 arch)
          (ops64_laws laws)
          iv
          node_key
          h
          t
          elm
          (insert arch iv elm (node_key elm) (h, t))
  insert-Outcome64 ok = insert-Outcome (ops64 arch) (ops64_laws laws) iv node_key h t elm valid o ok
