-- ===== src/Hash/Fingerprint/SlotTable.antt =====
-- include/rix/rix_hash_slot.h, whose nodes keep their slot as well as their hash: the text of
-- rix_hash_fp.h with the stores to `slot_field`, and `cmp_fn` called with the node's key first in a
-- search.
use relative_q.Base.{ℕ, ◌≡◌, ◌≢◌, ◌↔◌, sym, Option, List, true}
use relative_q.Hash.Arch.{Hash}
use relative_q.Hash.Cuckoo.{Head, Buckets}
use relative_q.Hash.Cuckoo.Valid.{IsValid}
use relative_q.Hash.Fingerprint as Fingerprint
use relative_q.Hash.Fingerprint.{FpOps, FpCtx}
use relative_q.Hash.Fingerprint.Laws.{FpLaws, fp_nodes}
use relative_q.Hash.Fingerprint.Find.{Holds, find-Holds}
use relative_q.Hash.Fingerprint.Fields as Fields
use relative_q.Hash.Fingerprint.Fields.{Fields}
use relative_q.Hash.Fingerprint.KeyOnly.{alt_bucket}

abbrev pub flip : {Key : Type 0} → FpOps Key → FpOps Key
flip ops = record ops { cmp_fn = λ a b. ops.cmp_fn b a }

abbrev pub init : ℕ → Head
init = Fingerprint.init

module _ {Key : Type 0} (ops : FpOps Key) (node_key : ℕ → Key) where
  abbrev pub hash_key : Head → Key → FpCtx Key → FpCtx Key
  hash_key = Fingerprint.hash_key (flip ops) node_key

  abbrev pub scan_bk : Buckets → FpCtx Key → FpCtx Key
  scan_bk = Fingerprint.scan_bk (flip ops) node_key

  abbrev pub cmp_key : Buckets → FpCtx Key → ℕ
  cmp_key = Fingerprint.cmp_key (flip ops) node_key

  abbrev pub hash_key_2bk : Head → Key → FpCtx Key → FpCtx Key
  hash_key_2bk = Fingerprint.hash_key_2bk (flip ops) node_key

  abbrev pub scan_bk_empties : Buckets → FpCtx Key → FpCtx Key
  scan_bk_empties = Fingerprint.scan_bk_empties (flip ops) node_key

  abbrev pub cmp_key_empties : Buckets → FpCtx Key → ℕ × FpCtx Key
  cmp_key_empties = Fingerprint.cmp_key_empties (flip ops) node_key

  abbrev pub hash_key_n : Head → List Key → List (FpCtx Key) → List (FpCtx Key)
  hash_key_n = Fingerprint.hash_key_n (flip ops) node_key

  abbrev pub scan_bk_n : Buckets → List (FpCtx Key) → List (FpCtx Key)
  scan_bk_n = Fingerprint.scan_bk_n (flip ops) node_key

  abbrev pub cmp_key_n : Buckets → List (FpCtx Key) → List ℕ
  cmp_key_n = Fingerprint.cmp_key_n (flip ops) node_key

  abbrev pub find : FpCtx Key → Head → Buckets → Key → ℕ
  find = Fingerprint.find (flip ops) node_key

  abbrev pub find_empty : ℕ → Buckets → Option ℕ
  find_empty = Fields.find_empty true ops node_key

  abbrev pub flipflop : ℕ → ℕ → ℕ → Fields → Option Fields
  flipflop = Fields.flipflop true ops node_key

  abbrev pub kickout : ℕ → ℕ → ℕ → Fields → Fields × Option ℕ
  kickout = Fields.kickout true ops node_key

  abbrev pub insert : ℕ → Head → Fields → ℕ × Head × Fields
  insert = Fields.insert true ops node_key

  abbrev pub insert_hashed : Hash → ℕ → Head → Fields → ℕ × Head × Fields
  insert_hashed = Fields.insert_with true ops node_key

  abbrev pub remove : ℕ → Head → Fields → ℕ × Head × Fields
  remove = Fields.remove_slot true ops node_key

abbrev pub remove_at : ℕ → ℕ → Head × Buckets → ℕ × Head × Buckets
remove_at = Fingerprint.remove_at

pub flip_laws :
    {Key : Type 0} {ops : FpOps Key} {mask : ℕ} → FpLaws ops mask → FpLaws (flip ops) mask
flip_laws laws = record {
  find_lem = laws.find_lem;
  find_2_lem = laws.find_2_lem;
  cmp_fn_iff = λ a b. (λ e. sym ((laws.cmp_fn_iff b a).0 e), λ e. (laws.cmp_fn_iff b a).1 (sym e));
  distinct = laws.distinct;
}

pub flip-IsValid :
    {Key : Type 0} (ops : FpOps Key) (node_key : ℕ → Key) (mask : ℕ) (laws : FpLaws ops mask)
    (t : Buckets)
    → IsValid (fp_nodes ops node_key mask laws) t
    → IsValid (fp_nodes (flip ops) node_key mask (flip_laws laws)) t
unfolding alt_bucket
flip-IsValid ops node_key mask laws t valid = record {
  empty = valid.empty;
  full = valid.full;
  owned = valid.owned;
  placed = valid.placed;
  unique = valid.unique;
}

-- In a valid table `find` of rix_hash_slot.h gives a node, not NULL, exactly when the table holds
-- that node and the node has the key.
pub find_slot-Holds :
    {Key : Type 0} (ops : FpOps Key) (node_key : ℕ → Key) (h : Head) (laws : FpLaws ops h.mask)
    (t : Buckets)
    → IsValid (fp_nodes ops node_key h.mask laws) t
    → (ctx : FpCtx Key) (key : Key) (n : ℕ) → n ≢ 0
    → (find ops node_key ctx h t key ≡ n) ↔ (Holds ops node_key h.mask t n × (node_key n ≡ key))
unfolding alt_bucket
find_slot-Holds ops node_key h laws t valid ctx key n o =
    find-Holds (flip ops) node_key h (flip_laws laws) t
      (flip-IsValid ops node_key h.mask laws t valid) ctx key n o
