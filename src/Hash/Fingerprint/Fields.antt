-- ===== src/Hash/Fingerprint/Fields.antt =====
-- include/rix/rix_hash_fp.h and include/rix/rix_hash_slot.h: the nodes keep the hash of the bucket
-- that they are in, and in rix_hash_slot.h (`with_slot`) their slot too.
use mathlib.Core.Option
use Prim.Native.Nat.{bit_and, bit_xor}
use relative_q.Base.{
  ℕ, zero, suc, ◌+◌, ◌==◌, if◌then◌else◌, not, ◌||◌, Bool, ltb, Option, none, some,
}
use relative_q.Hash.Arch.{Hash, first_hit, follow_depth, entry_sz}
use relative_q.Hash.Cuckoo.{Head, Buckets, set_slot, move_entry}
use relative_q.Hash.Cuckoo as Cuckoo
use relative_q.Hash.Cuckoo.Walk as Walk
use relative_q.Hash.Fingerprint.{FpOps, insert_hashed, remove_at}
use relative_q.Hash.Fingerprint.KeyOnly.{scheme}

-- The buckets, and `hash_field` and `slot_field` of the nodes.
pub record Fields : Type 0 where
  pub table : Buckets
  pub hash_field : ℕ → ℕ
  pub slot_field : ℕ → ℕ

abbrev pub set_field : (ℕ → ℕ) → ℕ → ℕ → ℕ → ℕ
set_field f n v m = if m == n then v else f m

-- Where the entry of a slot goes: the other bucket, from its fingerprint and its node's hash.
unfoldable pub other_bucket : ℕ → ℕ → ℕ → Fields → ℕ
other_bucket mask b s st =
    bit_and (bit_xor (st.table.key b s) (st.hash_field (st.table.idx b s))) mask

module _ {Key : Type 0} (with_slot : Bool) (ops : FpOps Key) (node_key : ℕ → Key) where
  abbrev pub find_empty : ℕ → Buckets → Option ℕ
  find_empty = Cuckoo.find_empty (scheme ops node_key)

  -- The stores of `flipflop`, for an entry that goes into slot `es` of bucket `alt`.
  unfoldable pub move_node : ℕ → ℕ → ℕ → ℕ → Fields → Fields
  move_node b s alt es st =
      let (fp, idx) : ℕ × ℕ = (st.table.key b s, st.table.idx b s) in
      record {
        table = move_entry (scheme ops node_key) b s alt es st.table;
        hash_field = set_field st.hash_field idx (bit_xor fp (st.hash_field idx));
        slot_field = if with_slot then set_field st.slot_field idx es else st.slot_field;
      }

  -- `none` is -1; otherwise the result is the slot that was given.
  unfoldable pub flipflop : ℕ → ℕ → ℕ → Fields → Option Fields
  flipflop mask b s st =
      let alt = other_bucket mask b s st in
      if st.table.idx b s == 0
      then none
      else Option.map (λ es. move_node b s alt es st) (find_empty alt st.table)

  -- The first loop of `kickout`, with `n` slots left from `s` on.
  unfoldable pub pass1 : ℕ → ℕ → ℕ → ℕ → Fields → Option (Fields × ℕ)
  pass1 mask b zero s st = none
  pass1 mask b (suc n) s st =
      let rest = pass1 mask b n (s + 1) st in
      elim (flipflop mask b s st) [ some st' ↦ some (st', s) | none ↦ rest ]

  -- The second loop. `kick` is `kickout` at a smaller depth; what the last `flipflop` returns is
  -- not looked at.
  unfoldable pub pass2 :
      (ℕ → Fields → Fields × Option ℕ) → ℕ → ℕ → ℕ → ℕ → Fields → Fields × Option ℕ
  pass2 kick mask b zero s st = (st, none)
  pass2 kick mask b (suc n) s st =
      let t = st.table in
      let (st', freed) = kick (other_bucket mask b s st) st in
      let t' = st'.table in
      let skip = pass2 kick mask b n (s + 1) st in
      let rest = pass2 kick mask b n (s + 1) st' in
      if t.idx b s == 0 then skip else elim freed [
        | none ↦ rest
        | some _ ↦
            if not (t'.key b s == t.key b s) || not (t'.idx b s == t.idx b s)
            then elim (find_empty b t') [ some fs ↦ (st', some fs) | none ↦ rest ]
            else elim (flipflop mask b s st') [ some st'' ↦ (st'', some s) | none ↦ (st', some s) ]
      ]

  unfoldable pub kickout : ℕ → ℕ → ℕ → Fields → Fields × Option ℕ
  kickout zero mask b st = (st, none)
  kickout (suc depth) mask b st =
      let deep = pass2 (kickout depth mask) mask b entry_sz 0 st in
      elim (pass1 mask b entry_sz 0 st) [ some (st', s) ↦ (st', some s) | none ↦ deep ]

  -- Stores `elm`. `hash` is the hash of the second bucket, if the slot is there.
  unfoldable pub place : ℕ → ℕ → ℕ → ℕ → Option ℕ → Fields → Fields
  place elm b s fp hash st = record {
    table = set_slot b s fp elm st.table;
    hash_field = elim hash [ some v ↦ set_field st.hash_field elm v | none ↦ st.hash_field ];
    slot_field = if with_slot then set_field st.slot_field elm s else st.slot_field;
  }

  -- `insert_hashed`: `elm->hash_field` is written before anything is looked at.
  abbrev pub insert_with : Hash → ℕ → Head → Fields → ℕ × Head × Fields
  insert_with hash elm h st =
      insert_hashed ops node_key (λ (st : Fields). st.table) (kickout follow_depth h.mask)
        (place elm) elm hash h (record st { hash_field = set_field st.hash_field elm hash.val0 })

  unfoldable pub insert : ℕ → Head → Fields → ℕ × Head × Fields
  insert elm h st = insert_with (ops.hash_fn (node_key elm) h.mask) elm h st

  -- `remove` of rix_hash_fp.h: the bucket is the one of the node's hash.
  unfoldable pub remove : ℕ → Head → Fields → ℕ × Head × Fields
  remove elm h st =
      let bk = bit_and (st.hash_field elm) h.mask in
      elim (first_hit ops.find (st.table.idx bk) elm) [
        | none ↦ (0, h, st)
        | some slot ↦
            let (n, h', t') = remove_at bk slot (h, st.table) in
            if n == 0
            then (0, h', record st { table = t' })
            else (elm, h', record st { table = t' })
      ]

  -- `remove` of rix_hash_slot.h: the slot is the node's too, and nothing is searched.
  unfoldable pub remove_slot : ℕ → Head → Fields → ℕ × Head × Fields
  remove_slot elm h st =
      let bk = bit_and (st.hash_field elm) h.mask in
      let slot = st.slot_field elm in
      let (n, h', t') = remove_at bk slot (h, st.table) in
      if not (ltb slot 16)
      then (0, h, st)
      else if not (st.table.idx bk slot == elm)
      then (0, h, st)
      else if n == 0
      then (0, h', record st { table = t' })
      else (elm, h', record st { table = t' })

-- `walk` of rix_hash_fp.h.
abbrev pub walk {ℓ} : {S : Type ℓ} (cb : S → ℕ → S × ℕ) (t : Buckets) → Head → S → S × ℕ
walk cb t h st = Walk.walk cb t h st
