-- ===== src/Tests/Tables.antt =====
-- Runs of the hash table on a table of two buckets over the generic handler. Node `n` has the key
-- `n + 10`, and 0 is the invalid key.
use relative_q.Base.{
  ℕ, ◌≡◌, ◌↔◌, ◌⊎◌, ◌+◌, [], ◌∷◌, none, refl, arith, inl, inr, List, ◌==◌, if◌then◌else◌,
}
use relative_q.Hash.Arch.{
  Arch, ArchLaws, find_u32x16_gen, find_u64x16_gen, first_hit, ctz, ctz_loop, find_loop,
}
use relative_q.Hash.Arch.Generic.{
  find_u32x16_2_gen, find_u32x16_2_gen-find_u32x16_gen, hash_u32_gen, hash_u64_gen, hash_bytes_gen,
  hash_gen_one_bucket,
}
use relative_q.Hash.Cuckoo.{Buckets, Head, set_slot, kickout}
use relative_q.Hash.Cuckoo.Valid.{NodeInfo, IsValid, Stored, Keeps}
use relative_q.Hash.Cuckoo.Store.{store-IsValid, store-Stored}
use relative_q.Hash.Cuckoo.Kickout.{kickout-Keeps}
use relative_q.Hash.KeyTable.{
  clear, Ops, OpsLaws, ops32, scheme, FindCtx, init, init_buckets, init_slots, find, insert, remove,
  bucket0, bucket1, hash_key_n, scan_bk_n, cmp_key_n,
}
use relative_q.Hash.KeyTable.Bounds.{key_nodes}
use relative_q.Hash.KeyTable.Init.{init-IsValid}
use relative_q.Hash.KeyTable.Find.{find-Stored}
use relative_q.Hash.KeyTable.Bulk.{IsAnswered, cmp_key_n-IsAnswered}
use relative_q.Hash.KeyTable.Insert.{Outcome, insert-Outcome, insert-room}
use relative_q.Hash.KeyTable.Remove.{IsRemoved, IsAbsent, remove-Removed}
use relative_q.Hash.KeyTable.Client.{find-remove, find-insert}
use relative_q.Hash.Table64.Laws.{ops32_laws}

abbrev pub arch : Arch
arch = record {
  find_u32x16 = find_u32x16_gen;
  find_u32x16_2 = find_u32x16_2_gen;
  find_u64x16 = find_u64x16_gen;
  hash_bytes = λ key mask. record { val0 = 0; val1 = 1 };
  hash_u32 = λ key mask. record { val0 = key; val1 = key + 1 };
  hash_u64 = λ key mask. record { val0 = key; val1 = key + 1 };
}

pub arch_laws : ArchLaws arch
arch_laws = record {
  find_u32x16_lem = λ arr val. refl;
  find_u32x16_2_lem = find_u32x16_2_gen-find_u32x16_gen;
  find_u64x16_lem = λ arr val. refl;
}

abbrev ops : Ops
ops = ops32 arch

laws : OpsLaws ops
laws = ops32_laws arch_laws

abbrev pub node_key : ℕ → ℕ
node_key n = n + 10

-- What a node is to a table of two buckets.
abbrev m : NodeInfo (scheme ops 0) 1
m = key_nodes ops laws 0 1 node_key

-- The memory before `init`.
abbrev pub junk : Buckets
junk = record { key = λ b s. b + s; idx = λ b s. 7 }

abbrev empty_head : Head
empty_head = record { mask = 1; nb = 0 }

abbrev one_head : Head
one_head = record { mask = 1; nb = 1 }

abbrev empty_table : Buckets
empty_table = (init ops 0 2 junk).1

-- Node 1 in slot 0 of bucket 1.
abbrev one_node : Buckets
one_node = set_slot 1 0 11 1 empty_table

abbrev pub any_ctx : FindCtx
any_ctx = record { bk0 = 9; bk1 = 9; key = 9; hits0 = 9; hits1 = 9 }

init-IsValid_example :
    (((init ops 0 2 junk).0).mask + 1 ≡ 2)
    × (((init ops 0 2 junk).0).nb ≡ 0)
    × IsValid (key_nodes ops laws 0 (((init ops 0 2 junk).0).mask) node_key) ((init ops 0 2 junk).1)
    × ((k n : ℕ) → ¬ Stored (((init ops 0 2 junk).0).mask) ((init ops 0 2 junk).1) k n)
init-IsValid_example = init-IsValid ops 0 laws node_key 2 junk (omega arith) (omega arith)

empty_table-IsValid : IsValid m empty_table
unfolding init
empty_table-IsValid =
    let (e0, e1, v, e) = init-IsValid ops 0 laws node_key 2 junk (omega arith) (omega arith) in v

empty_table-Stored : (k n : ℕ) → ¬ Stored 1 empty_table k n
unfolding init
empty_table-Stored =
    let (e0, e1, v, e) = init-IsValid ops 0 laws node_key 2 junk (omega arith) (omega arith) in e

empty_table-idx : empty_table.idx 1 0 ≡ 0
unfolding init init_buckets init_slots set_slot
empty_table-idx = refl

one_node-IsValid : IsValid m one_node
unfolding bucket0 bucket1
one_node-IsValid =
    store-IsValid empty_table-IsValid 1 0 1 (omega arith, omega arith) empty_table-idx (omega arith)
      (omega arith) (inl refl) (λ k n q. empty_table-Stored k n)

find-Stored_example : (find ops any_ctx one_head one_node 11 ≡ 1) ↔ Stored 1 one_node 11 1
find-Stored_example =
    find-Stored ops laws node_key 0 one_head one_node one_node-IsValid any_ctx 11 1 (omega arith)

cmp_key_n-IsAnswered_example : IsAnswered 1 one_node (11 ∷ 12 ∷ []) (
    cmp_key_n ops one_node
      (scan_bk_n ops one_node (hash_key_n ops one_head (11 ∷ 12 ∷ []) (any_ctx ∷ any_ctx ∷ []))))
cmp_key_n-IsAnswered_example =
    cmp_key_n-IsAnswered ops laws node_key 0 one_head one_node one_node-IsValid (11 ∷ 12 ∷ [])
      (any_ctx ∷ any_ctx ∷ []) refl

insert-Outcome_example :
    Outcome ops laws 0 node_key one_head one_node 2 (insert ops 0 2 12 (one_head, one_node))
insert-Outcome_example =
    insert-Outcome ops laws 0 node_key one_head one_node 2 one_node-IsValid (omega arith)
      (omega arith)

remove-Removed_example :
    IsRemoved ops laws 0 node_key one_head one_node 1 (remove ops 0 1 11 (one_head, one_node))
    ⊎ IsAbsent ops laws 0 node_key one_head one_node 1 (remove ops 0 1 11 (one_head, one_node))
remove-Removed_example =
    remove-Removed ops laws 0 node_key one_head one_node 1 one_node-IsValid (omega arith)

kickout-Keeps_example : Keeps m one_node ((kickout (scheme ops 0) 2 1 1 one_node).0)
kickout-Keeps_example = kickout-Keeps m 2 1 one_node (omega arith) one_node-IsValid

-- No node of the table has the key 12.
absent_12 : (n : ℕ) → ¬ Stored 1 one_node 12 n
unfolding bucket0
absent_12 n st =
    let (at_one, back) =
      store-Stored empty_table-IsValid 1 0 1 (omega arith, omega arith) empty_table-idx
        (omega arith) (omega arith) (inl refl) (λ k n q. empty_table-Stored k n) 12 n in
    elim (at_one st) [ inl x ↦ empty_table-Stored 12 n x | inr (e, e') ↦ absurd (omega arith) ]

insert-room_example : (insert ops 0 2 12 (one_head, one_node)).0 ≡ 0
unfolding init init_buckets init_slots set_slot bucket0 bucket1
insert-room_example =
    insert-room ops laws 0 node_key one_head one_node 2 one_node-IsValid (omega arith) (omega arith)
      absent_12 0 3 (inl refl) (omega arith) refl

-- Collects the nodes and stops at node 9.
abbrev collect : List ℕ → ℕ → List ℕ × ℕ
collect st n = (n ∷ st, if n == 9 then 1 else 0)

hash_gen_one_bucket_example :
    (hash_u32_gen 1000 11 0 ≡ none)
    × (hash_u64_gen 1000 11 0 ≡ none)
    × (hash_bytes_gen 1000 (1 ∷ 2 ∷ []) 0 ≡ none)
hash_gen_one_bucket_example = hash_gen_one_bucket 1000 11 (1 ∷ 2 ∷ [])

find-insert_example :
    find ops any_ctx
      ((insert ops 0 2 12 (one_head, one_node)).1)
      ((insert ops 0 2 12 (one_head, one_node)).2)
      12
    ≡ 2
find-insert_example =
    find-insert ops laws 0 node_key one_head one_node one_node-IsValid any_ctx 2 (omega arith) 12
      (omega arith) insert-room_example

find-remove_example :
    find ops any_ctx
      ((remove ops 0 1 11 (one_head, one_node)).1)
      ((remove ops 0 1 11 (one_head, one_node)).2)
      11
    ≡ 0
unfolding init init_buckets init_slots set_slot remove clear first_hit ctz ctz_loop bucket0 bucket1
    find_u32x16_gen find_loop
find-remove_example =
    find-remove ops laws 0 node_key one_head one_node one_node-IsValid any_ctx 1 (omega arith) 11
      refl
