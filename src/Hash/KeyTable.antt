-- ===== src/Hash/KeyTable.antt =====
-- include/rix/rix_hash32.h: the cuckoo hash table that keeps the keys in the buckets, as
-- RIX_HASH32_GENERATE writes it. include/rix/rix_hash64.h has the same text over 64-bit keys.
pub mod Bounds
pub mod Find
pub mod Insert
pub mod Remove
pub mod Init
pub mod Bulk
pub mod Client
use relative_q.Base.{
  ℕ, zero, suc, ◌+◌, ◌-◌, ◌%◌, ◌^◌, ◌==◌, if◌then◌else◌, not, Option, none, some, List, map, [],
  ◌∷◌,
}
use Prim.Native.Nat.{bit_and}
use relative_q.Hash.Arch.{Arch, ArchLaws, Hash, IsFind, ctz, first_hit, entry_sz, follow_depth}
use relative_q.Hash.Cuckoo.{Head, Buckets, Scheme, set_slot, find_empty, kickout}

-- The three handlers that the table calls: the scans of `key[]` and of `idx[]`, and the hash.
pub record Ops : Type 0 where
  pub find_key : (ℕ → ℕ) → ℕ → ℕ
  pub find_idx : (ℕ → ℕ) → ℕ → ℕ
  pub hash : ℕ → ℕ → Hash

-- Those of the table for 32-bit keys.
abbrev pub ops32 : Arch → Ops
ops32 arch = record {
  find_key = arch.find_u32x16;
  find_idx = arch.find_u32x16;
  hash = arch.hash_u32;
}

-- Those of the table for 64-bit keys.
abbrev pub ops64 : Arch → Ops
ops64 arch = record {
  find_key = arch.find_u64x16;
  find_idx = arch.find_u32x16;
  hash = arch.hash_u64;
}

pub record OpsLaws (ops : Ops) : Type 0 where
  pub find_key_lem : IsFind ops.find_key
  pub find_idx_lem : IsFind ops.find_idx

pub record FindCtx : Type 0 where
  pub bk0 : ℕ
  pub bk1 : ℕ
  pub key : ℕ
  pub hits0 : ℕ
  pub hits1 : ℕ

module _ (ops : Ops) where
  -- The two candidate buckets of a key.
  unfoldable pub bucket0 : ℕ → ℕ → ℕ
  bucket0 mask key = bit_and ((ops.hash key mask).val0) mask

  unfoldable pub bucket1 : ℕ → ℕ → ℕ
  bucket1 mask key = bit_and ((ops.hash key mask).val1) mask

  pub hash_key : Head → ℕ → FindCtx → FindCtx
  hash_key h key ctx = record ctx { bk0 = bucket0 h.mask key; bk1 = bucket1 h.mask key; key = key }

  pub scan_bk : Buckets → FindCtx → FindCtx
  scan_bk t ctx = record ctx { hits0 = ops.find_key (t.key ctx.bk0) ctx.key; hits1 = 0 }

  pub cmp_key : Buckets → FindCtx → ℕ
  cmp_key t ctx =
      let hits = ops.find_key (t.key ctx.bk1) ctx.key in
      if not (ctx.hits0 == 0)
      then t.idx ctx.bk0 (ctz ctx.hits0)
      else if not (hits == 0)
      then t.idx ctx.bk1 (ctz hits)
      else 0

  -- The local context of `find` is not initialised.
  pub find : FindCtx → Head → Buckets → ℕ → ℕ
  unfolding hash_key scan_bk cmp_key
  find ctx h t key = cmp_key t (scan_bk t (hash_key h key ctx))

  -- The bulk stages over the same number of contexts and keys.
  pub hash_key_n : Head → List ℕ → List FindCtx → List FindCtx
  hash_key_n h (k ∷ keys) (c ∷ ctx) = hash_key h k c ∷ hash_key_n h keys ctx
  hash_key_n h [] ctx = ctx
  hash_key_n h (k ∷ keys) [] = []

  pub scan_bk_n : Buckets → List FindCtx → List FindCtx
  scan_bk_n t ctx = map (scan_bk t) ctx

  pub cmp_key_n : Buckets → List FindCtx → List ℕ
  cmp_key_n t ctx = map (cmp_key t) ctx

  module _ (invalid_key : ℕ) where
    -- The two loops of `init` after `n` rounds.
    unfoldable pub init_slots : ℕ → ℕ → Buckets → Buckets
    unfolding set_slot
    init_slots b zero t = t
    init_slots b (suc n) t = set_slot b n invalid_key 0 (init_slots b n t)

    unfoldable pub init_buckets : ℕ → Buckets → Buckets
    unfolding init_slots
    init_buckets zero t = t
    init_buckets (suc n) t = init_slots n entry_sz (init_buckets n t)

    unfoldable pub init : ℕ → Buckets → Head × Buckets
    unfolding init_buckets
    init nb_bk t = (record { mask = (nb_bk + (2 ^ 32 - 1)) % 2 ^ 32; nb = 0 }, init_buckets nb_bk t)

    -- The bucket of a key that is not `b`.
    unfoldable pub alt_bucket : ℕ → ℕ → ℕ → ℕ
    alt_bucket mask b key = if b == bucket0 mask key then bucket1 mask key else bucket0 mask key

    abbrev pub scheme : Scheme
    scheme = record {
      find = ops.find_key;
      invalid_key = invalid_key;
      alt_bucket = λ mask b key idx. alt_bucket mask b key;
    }

    -- The three lines that put `elm` into a slot; `nb` is an `unsigned`.
    unfoldable pub put : ℕ → ℕ → ℕ → ℕ → Head × Buckets → Head × Buckets
    put b s key elm (h, t) = (record h { nb = (h.nb + 1) % 2 ^ 32 }, set_slot b s key elm t)

    -- Gives NULL for success, `elm` for a full table, and otherwise the node with the same key.
    -- `key` is `elm->key_field`.
    unfoldable pub insert : ℕ → ℕ → Head × Buckets → ℕ × Head × Buckets
    unfolding put
    insert elm key (h, t) =
        let b0 = bucket0 h.mask key in
        let b1 = bucket1 h.mask key in
        elim (first_hit ops.find_key (t.key b0) key) [
          | some s ↦ (t.idx b0 s, h, t)
          | none ↦ elim (first_hit ops.find_key (t.key b1) key) [
            | some s ↦ (t.idx b1 s, h, t)
            | none ↦ elim (find_empty scheme b0 t) [
              | some s ↦ let (h', t') = put b0 s key elm (h, t) in (0, h', t')
              | none ↦ elim (find_empty scheme b1 t) [
                | some s ↦ let (h', t') = put b1 s key elm (h, t) in (0, h', t')
                | none ↦
                    let (t1, s1) = kickout scheme follow_depth h.mask b0 t in
                    elim s1 [
                      | some s ↦ let (h', t') = put b0 s key elm (h, t1) in (0, h', t')
                      | none ↦
                          let (t2, s2) = kickout scheme follow_depth h.mask b1 t1 in
                          elim s2 [
                            | some s ↦ let (h', t') = put b1 s key elm (h, t2) in (0, h', t')
                            | none ↦ (elm, h, t2)
                          ]
                    ]
              ]
            ]
          ]
        ]

    unfoldable pub clear : ℕ → ℕ → Head × Buckets → Head × Buckets
    clear b s (h, t) =
        (record h { nb = (h.nb + (2 ^ 32 - 1)) % 2 ^ 32 }, set_slot b s invalid_key 0 t)

    -- Gives `elm`, or NULL if it is not in the table.
    unfoldable pub remove : ℕ → ℕ → Head × Buckets → ℕ × Head × Buckets
    unfolding clear
    remove elm key (h, t) =
        let b0 = bucket0 h.mask key in
        let b1 = bucket1 h.mask key in
        elim (first_hit ops.find_idx (t.idx b0) elm) [
          | some s ↦ let (h', t') = clear b0 s (h, t) in (elm, h', t')
          | none ↦ elim (first_hit ops.find_idx (t.idx b1) elm) [
            | some s ↦ let (h', t') = clear b1 s (h, t) in (elm, h', t')
            | none ↦ (0, h, t)
          ]
        ]
