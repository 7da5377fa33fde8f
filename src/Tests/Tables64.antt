-- ===== src/Tests/Tables64.antt =====
-- Runs of the table for 64-bit keys on a table of two buckets. Node `n` has the key `n + 10`.
use relative_q.Base.{ℕ, ◌≡◌, refl, arith, inl}
use relative_q.Tests.Tables.{arch, arch_laws, node_key, junk, any_ctx}
use relative_q.Hash.Arch.{first_hit, ctz, ctz_loop, find_u64x16_gen, find_loop}
use relative_q.Hash.Cuckoo.{Buckets, Head, set_slot, find_empty}
use relative_q.Hash.Cuckoo.Valid.{NodeInfo, IsValid, Stored}
use relative_q.Hash.Cuckoo.Store.{store-IsValid}
use relative_q.Hash.KeyTable.{
  ops64, scheme, init, init_buckets, init_slots, insert, put, bucket0, bucket1,
}
use relative_q.Hash.KeyTable.Init.{init-IsValid}
use relative_q.Hash.Table64 as Table64
use relative_q.Hash.Table64.Laws.{ops64_laws, nodes64, find-insert64}

abbrev m : NodeInfo (scheme (ops64 arch) 0) 1
m = nodes64 arch arch_laws 0 1 node_key

abbrev head64 : Head
head64 = record { mask = 1; nb = 1 }

abbrev empty64 : Buckets
empty64 = (Table64.init arch 0 2 junk).1

-- Node 1 in slot 0 of bucket 1.
abbrev one64 : Buckets
one64 = set_slot 1 0 11 1 empty64

empty64-IsValid : IsValid m empty64 × ((k n : ℕ) → ¬ Stored 1 empty64 k n)
unfolding init
empty64-IsValid =
    let (e0, e1, v, e) =
      init-IsValid (ops64 arch) 0 (ops64_laws arch_laws) node_key 2 junk (omega arith)
        (omega arith) in
    (v, e)

one64-IsValid : IsValid m one64
unfolding init init_buckets init_slots set_slot bucket0
one64-IsValid =
    store-IsValid (empty64-IsValid.0) 1 0 1 (omega arith, omega arith) refl (omega arith)
      (omega arith) (inl refl) (λ k n q. empty64-IsValid.1 k n)

find-insert64_example :
    Table64.find arch any_ctx
      ((Table64.insert arch 0 2 12 (head64, one64)).1)
      ((Table64.insert arch 0 2 12 (head64, one64)).2)
      12
    ≡ 2
unfolding init init_buckets init_slots set_slot insert put find_empty first_hit ctz ctz_loop bucket0
    bucket1 find_u64x16_gen find_loop
find-insert64_example =
    find-insert64 arch arch_laws 0 node_key head64 one64 one64-IsValid 2 (omega arith) any_ctx 12
      (omega arith) refl
