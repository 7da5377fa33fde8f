-- ===== src/Hash/Cuckoo.antt =====
-- What the cuckoo hash tables of include/rix share: the buckets, `kickout` as rix_hash32.h,
-- rix_hash64.h and rix_hash_keyonly.h write it, and `walk`.
-- A node is its 1-origin index in the element array, and 0 is NULL.
pub mod Slots
pub mod Valid
pub mod Move
pub mod Frees
pub mod Kickout
pub mod Store
pub mod Clear
pub mod Nodes
pub mod Walk
use mathlib.Core.Option
use relative_q.Base.{ℕ, zero, suc, ◌+◌, ◌==◌, if◌then◌else◌, not, ◌&&◌, ◌||◌, Option, none, some}
use relative_q.Hash.Arch.{first_hit, entry_sz}

pub record Head : Type 0 where
  pub mask : ℕ
  pub nb : ℕ

-- The bucket array: `t.key b s` is `buckets[b].key[s]`, or `buckets[b].hash[s]` in the tables that
-- keep fingerprints.
pub record Buckets : Type 0 where
  pub key : ℕ → ℕ → ℕ
  pub idx : ℕ → ℕ → ℕ

abbrev pub update : (ℕ → ℕ → ℕ) → ℕ → ℕ → ℕ → ℕ → ℕ → ℕ
update f b s v b' s' = if (b' == b) && (s' == s) then v else f b' s'

-- The two stores to one slot.
unfoldable pub set_slot : ℕ → ℕ → ℕ → ℕ → Buckets → Buckets
set_slot b s key idx t = record { key = update t.key b s key; idx = update t.idx b s idx }

-- What a table puts into the shared code: the scan of a key array, the key of an empty slot, and
-- the other bucket of an entry, from the mask, its bucket, its key and its node.
pub record Scheme : Type 0 where
  pub find : (ℕ → ℕ) → ℕ → ℕ
  pub invalid_key : ℕ
  pub alt_bucket : ℕ → ℕ → ℕ → ℕ → ℕ

module _ (c : Scheme) where
  unfoldable pub find_empty : ℕ → Buckets → Option ℕ
  find_empty b t = first_hit c.find (t.key b) c.invalid_key

  -- Moves the entry of a slot into a free slot of another bucket.
  unfoldable pub move_entry : ℕ → ℕ → ℕ → ℕ → Buckets → Buckets
  move_entry b s alt es t = set_slot b s c.invalid_key 0 (set_slot alt es (t.key b s) (t.idx b s) t)

  -- `none` is -1; otherwise the result is the slot that was given.
  unfoldable pub flipflop : ℕ → ℕ → ℕ → Buckets → Option Buckets
  flipflop mask b s t =
      let alt = c.alt_bucket mask b (t.key b s) (t.idx b s) in
      if t.idx b s == 0 then none else Option.map (λ es. move_entry b s alt es t) (find_empty alt t)

  -- The first loop of `kickout`, with `n` slots left from `s` on.
  unfoldable pub pass1 : ℕ → ℕ → ℕ → ℕ → Buckets → Option (Buckets × ℕ)
  pass1 mask b zero s t = none
  pass1 mask b (suc n) s t =
      let rest = pass1 mask b n (s + 1) t in
      elim (flipflop mask b s t) [ some t' ↦ some (t', s) | none ↦ rest ]

  -- The second loop. `kick` is `kickout` at a smaller depth; after it has succeeded `find_empty`
  -- does too, so that its -1 is no index.
  unfoldable pub pass2 :
      (ℕ → Buckets → Buckets × Option ℕ) → ℕ → ℕ → ℕ → ℕ → Buckets → Buckets × Option ℕ
  pass2 kick mask b zero s t = (t, none)
  pass2 kick mask b (suc n) s t =
      let alt = c.alt_bucket mask b (t.key b s) (t.idx b s) in
      let (t', freed) = kick alt t in
      let skip = pass2 kick mask b n (s + 1) t in
      let rest = pass2 kick mask b n (s + 1) t' in
      if t.idx b s == 0 then skip else elim freed [
        | none ↦ rest
        | some _ ↦
            if not (t'.key b s == t.key b s) || not (t'.idx b s == t.idx b s)
            then elim (find_empty b t') [ some fs ↦ (t', some fs) | none ↦ rest ]
            else elim (find_empty alt t') [
              | some es ↦ (move_entry b s alt es t', some s)
              | none ↦ (t', none)
            ]
      ]

  unfoldable pub kickout : ℕ → ℕ → ℕ → Buckets → Buckets × Option ℕ
  kickout zero mask b t = (t, none)
  kickout (suc depth) mask b t =
      let deep = pass2 (kickout depth mask) mask b entry_sz 0 t in
      elim (pass1 mask b entry_sz 0 t) [ some (t', s) ↦ (t', some s) | none ↦ deep ]
