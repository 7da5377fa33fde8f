-- ===== src/Hash/Fingerprint/KeyOnly.antt =====
-- include/rix/rix_hash_keyonly.h: the nodes hold nothing but the key, so that `kickout` and
-- `remove` hash the key again. `kickout` has the text of the tables that keep keys.
use Prim.Native.Nat.{bit_and}
use relative_q.Base.{List, ℕ, ◌==◌, if◌then◌else◌, Option, none, some}
use relative_q.Hash.Arch.{first_hit, follow_depth}
use relative_q.Hash.Cuckoo.{Head, Buckets, Scheme, set_slot}
use relative_q.Hash.Cuckoo as Cuckoo
use relative_q.Hash.Fingerprint.{FpOps, buckets, insert_hashed, FpCtx}
use relative_q.Hash.Fingerprint as Fingerprint
use relative_q.Hash.Cuckoo.Walk as Walk

abbrev pub init : ℕ → Head
init = Fingerprint.init

abbrev pub remove_at : ℕ → ℕ → Head × Buckets → ℕ × Head × Buckets
remove_at = Fingerprint.remove_at

abbrev pub walk {ℓ} : {S : Type ℓ} (cb : S → ℕ → S × ℕ) (t : Buckets) → Head → S → S × ℕ
walk cb t h st = Walk.walk cb t h st

module _ {Key : Type 0} (ops : FpOps Key) (node_key : ℕ → Key) where
  abbrev pub hash_key : Head → Key → FpCtx Key → FpCtx Key
  hash_key = Fingerprint.hash_key ops node_key

  abbrev pub scan_bk : Buckets → FpCtx Key → FpCtx Key
  scan_bk = Fingerprint.scan_bk ops node_key

  abbrev pub cmp_key : Buckets → FpCtx Key → ℕ
  cmp_key = Fingerprint.cmp_key ops node_key

  abbrev pub hash_key_n : Head → List Key → List (FpCtx Key) → List (FpCtx Key)
  hash_key_n = Fingerprint.hash_key_n ops node_key

  abbrev pub scan_bk_n : Buckets → List (FpCtx Key) → List (FpCtx Key)
  scan_bk_n = Fingerprint.scan_bk_n ops node_key

  abbrev pub cmp_key_n : Buckets → List (FpCtx Key) → List ℕ
  cmp_key_n = Fingerprint.cmp_key_n ops node_key

  abbrev pub find : FpCtx Key → Head → Buckets → Key → ℕ
  find = Fingerprint.find ops node_key

  -- The bucket of a node that is not `b`, from the hash of its key.
  unfoldable pub alt_bucket : ℕ → ℕ → ℕ → ℕ
  alt_bucket mask b idx =
      let h = ops.hash_fn (node_key idx) mask in
      if b == bit_and h.val0 mask then bit_and h.val1 mask else bit_and h.val0 mask

  abbrev pub scheme : Scheme
  scheme = record {
    find = ops.find;
    invalid_key = 0;
    alt_bucket = λ mask b fp idx. alt_bucket mask b idx;
  }

  abbrev pub find_empty : ℕ → Buckets → Option ℕ
  find_empty = Cuckoo.find_empty scheme

  abbrev pub flipflop : ℕ → ℕ → ℕ → Buckets → Option Buckets
  flipflop = Cuckoo.flipflop scheme

  abbrev pub kickout : ℕ → ℕ → ℕ → Buckets → Buckets × Option ℕ
  kickout = Cuckoo.kickout scheme

  abbrev pub place : ℕ → ℕ → ℕ → ℕ → Option ℕ → Buckets → Buckets
  place elm b s fp hash t = set_slot b s fp elm t

  -- Gives NULL for success, `elm` for a full table, and otherwise the node with the same key.
  unfoldable pub insert : ℕ → Head → Buckets → ℕ × Head × Buckets
  insert elm h t =
      insert_hashed ops node_key (λ t. t) (kickout follow_depth h.mask) (place elm) elm
        (ops.hash_fn (node_key elm) h.mask) h t

  -- The round of `remove` for one bucket; `rest` is what follows when it does not return.
  unfoldable pub remove_from : ℕ → ℕ → Head × Buckets → ℕ × Head × Buckets → ℕ × Head × Buckets
  remove_from elm bk (h, t) rest = elim (first_hit ops.find (t.idx bk) elm) [
    | none ↦ rest
    | some slot ↦
        let (n, h', t') = remove_at bk slot (h, t) in if n == 0 then rest else (elm, h', t')
  ]

  -- Gives `elm`, or NULL if it is not in the table.
  unfoldable pub remove : ℕ → Head → Buckets → ℕ × Head × Buckets
  remove elm h t =
      let (bk0, bk1, fp) = buckets (ops.hash_fn (node_key elm) h.mask) h.mask in
      remove_from elm bk0 (h, t) (remove_from elm bk1 (h, t) (0, h, t))
