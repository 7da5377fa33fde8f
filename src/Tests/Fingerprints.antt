-- ===== src/Tests/Fingerprints.antt =====
-- Runs of the tables of fingerprints on two buckets. Node `n` has the key `n + 10`, and every key
-- has the buckets 0 and 1 and the fingerprint 1.
use relative_q.Base.{
  ◌*◌, ◌^◌, ◌-◌, ◌≤◌, ℕ, ◌≡◌, ◌↔◌, ◌+◌, ◌==◌, ==_iff, if◌then◌else◌, Bool, false, none, refl, arith,
  inl, inr, Bool-cases, true, ◌⊎◌, ◌<◌,
}
use relative_q.Hash.Arch.{find_u32x16_gen, ctz, ctz_loop}
use relative_q.Hash.Arch.Generic.{find_u32x16_2_gen, find_u32x16_2_gen-find_u32x16_gen, find_2_loop}
use relative_q.Hash.Cuckoo.{Head, Buckets, set_slot}
use relative_q.Hash.Cuckoo.Valid.{IsValid}
use relative_q.Hash.Cuckoo.Store.{store-IsValid}
use relative_q.Hash.Fingerprint.{FpOps, FpCtx, find, insert_hashed, duplicate, buckets}
use relative_q.Hash.Fingerprint.Unmark.{Result, remove_marked-Outcome, remove_slot-Outcome}
use relative_q.Hash.Fingerprint.RoundTrip.{
  insert_marked-Outcome, IsBack, insert-remove, insert-remove_slot,
}
use relative_q.Hash.Fingerprint.Reinsert.{remove-reinsert}
use relative_q.Hash.Arch.Hits.{hits_loop}
use relative_q.Hash.Sizing.{nb_bk_hint, or_shift}
use relative_q.Hash.Sizing.Power.{nb_bk_hint-least}
use relative_q.Hash.Fingerprint.Laws.{FpLaws, fp_nodes}
use relative_q.Hash.Fingerprint.Find.{Holds, find-Holds}
use relative_q.Hash.Fingerprint.KeyOnly as KeyOnly
use relative_q.Hash.Fingerprint.Insert as Insert
use relative_q.Hash.Fingerprint.Insert.{insert_keyonly-Outcome}
use relative_q.Hash.Fingerprint.Remove as Remove
use relative_q.Hash.Fingerprint.Remove.{remove_keyonly-Outcome}
use relative_q.Hash.Fingerprint.Fields.{Fields, kickout, insert, remove, remove_slot, place}
use relative_q.Hash.Fingerprint.Marked.{IsMarked}
use relative_q.Hash.Fingerprint.Place.{start, start-IsMarked, place-IsMarked}
use relative_q.Hash.Fingerprint.Zeroed.{zeroed, zeroed-IsValid, zeroed-IsMarked, zeroed-Holds}
use relative_q.Hash.Fingerprint.Refine.{Refines, kickout-Refines}

abbrev pub ops : FpOps ℕ
ops = record {
  find = find_u32x16_gen;
  find_2 = find_u32x16_2_gen;
  hash_fn = λ key mask. record { val0 = 0; val1 = 1 };
  cmp_fn = λ a b. if a == b then 0 else 1;
}

pub laws : FpLaws ops 1
laws = record {
  find_lem = λ arr val. refl;
  find_2_lem = find_u32x16_2_gen-find_u32x16_gen;
  cmp_fn_iff = λ a b. elim (Bool-cases (a == b)) [
    | inl e ↦ ((λ p. (==_iff a b).0 e), λ p. rw e refl)
    | inr e ↦ ((λ p. absurd (ground arith)), λ p. absurd (ground arith))
  ];
  distinct = λ key. omega arith;
}

abbrev node_key : ℕ → ℕ
node_key n = n + 10

abbrev head : Head
head = record { mask = 1; nb = 1 }

-- Node 1 in slot 0 of bucket 0.
abbrev one_node : Buckets
one_node = set_slot 0 0 1 1 zeroed

one_node-IsValid : IsValid (fp_nodes ops node_key 1 laws) one_node
one_node-IsValid =
    store-IsValid (zeroed-IsValid ops node_key 1 laws) 0 0 1 (omega arith, omega arith) refl
      (omega arith) (omega arith) (inl refl) (λ k n q (b, s, r, o, ek, ei). o (omega arith))

abbrev pub any_ctx : FpCtx ℕ
any_ctx = record {
  hash = record { val0 = 9; val1 = 9 };
  bk0 = 9;
  bk1 = 9;
  key = 9;
  fp = 9;
  fp_hits0 = 9;
  fp_hits1 = 9;
  empties0 = 9;
  empties1 = 9;
}

find-Holds_example :
    (find ops node_key any_ctx head one_node 11 ≡ 1)
    ↔ (Holds ops node_key 1 one_node 1 × (node_key 1 ≡ 11))
find-Holds_example =
    find-Holds ops node_key head laws one_node one_node-IsValid any_ctx 11 1 (omega arith)

insert_keyonly-Outcome_example :
    Insert.Outcome ops node_key head laws one_node 2 (KeyOnly.insert ops node_key 2 head one_node)
insert_keyonly-Outcome_example =
    insert_keyonly-Outcome ops node_key head laws one_node 2 one_node-IsValid (omega arith)

remove_keyonly-Outcome_example :
    Remove.Outcome ops node_key head laws one_node 1 (KeyOnly.remove ops node_key 1 head one_node)
remove_keyonly-Outcome_example =
    remove_keyonly-Outcome ops node_key head laws one_node 1 one_node-IsValid (omega arith)

-- The same table with what the node keeps.
abbrev no_nodes : Fields
no_nodes = record { table = zeroed; hash_field = λ n. 7; slot_field = λ n. 7 }

abbrev marked_node : Bool → Fields
marked_node with_slot =
    place with_slot ops node_key 1 0 0 1 none (start with_slot ops node_key 1 1 no_nodes)

marked_node-IsMarked :
    (with_slot : Bool) → IsMarked with_slot ops node_key 1 0 0 (marked_node with_slot)
unfolding place
marked_node-IsMarked with_slot =
    place-IsMarked with_slot ops node_key 1 (start with_slot ops node_key 1 1 no_nodes) 1 0 0 1
      (omega arith)
      (start-IsMarked with_slot ops node_key 1 laws no_nodes 1 (zeroed-IsValid ops node_key 1 laws)
        (zeroed-IsMarked ops node_key 1 laws with_slot (λ n. 7) (λ n. 7))
        (zeroed-Holds ops node_key 1 laws 1))
      none refl (inl refl)

marked_node-IsValid :
    (with_slot : Bool) → IsValid (fp_nodes ops node_key 1 laws) ((marked_node with_slot).table)
unfolding place
marked_node-IsValid with_slot = one_node-IsValid

-- Node 2 is not there.
marked_node-fresh : (with_slot : Bool) → ¬ Holds ops node_key 1 ((marked_node with_slot).table) 2
unfolding place set_slot
marked_node-fresh with_slot (b, s, r, o, ek, ei) = ground (arith, ei)

kickout-Refines_example :
    Refines false ops node_key 1 laws 0 0
      (kickout false ops node_key 2 1 0 (marked_node false))
      (KeyOnly.kickout ops node_key 2 1 0 ((marked_node false).table))
kickout-Refines_example =
    kickout-Refines false ops node_key 1 laws 0 0 2 0 (marked_node false) (omega arith)
      (marked_node-IsValid false) (marked_node-IsMarked false)

insert_marked-Outcome_example :
    Insert.Outcome ops node_key head laws ((marked_node false).table) 2 (
      (insert false ops node_key 2 head (marked_node false)).0,
      (insert false ops node_key 2 head (marked_node false)).1,
      ((insert false ops node_key 2 head (marked_node false)).2).table,
    )
    × IsMarked false ops node_key 1 0 0 ((insert false ops node_key 2 head (marked_node false)).2)
insert_marked-Outcome_example =
    insert_marked-Outcome false ops node_key head laws 2 (omega arith) (marked_node false)
      (marked_node-IsValid false) (marked_node-IsMarked false) (marked_node-fresh false)

remove_marked-Outcome_example :
    Result false ops node_key head laws
      (marked_node false)
      (marked_node-IsValid false)
      (marked_node-IsMarked false)
      1
      (omega arith)
      (remove false ops node_key 1 head (marked_node false))
remove_marked-Outcome_example =
    remove_marked-Outcome false ops node_key head laws (marked_node false)
      (marked_node-IsValid false) (marked_node-IsMarked false) 1 (omega arith)

remove_slot-Outcome_example :
    Result true ops node_key head laws
      (marked_node true)
      (marked_node-IsValid true)
      (marked_node-IsMarked true)
      1
      (omega arith)
      (remove_slot true ops node_key 1 head (marked_node true))
remove_slot-Outcome_example =
    remove_slot-Outcome ops node_key head laws (marked_node true) (marked_node-IsValid true)
      (marked_node-IsMarked true) 1 (omega arith)

insert_adds :
    (with_slot : Bool) → (insert with_slot ops node_key 2 head (marked_node with_slot)).0 ≡ 0
unfolding insert insert_hashed duplicate hits_loop find_u32x16_2_gen find_2_loop place set_slot
    buckets ctz ctz_loop
insert_adds with_slot = refl

insert-remove_example :
    IsBack false ops node_key head laws 2
      (omega arith)
      (marked_node false)
      (marked_node-IsValid false)
      (marked_node-IsMarked false)
      (marked_node-fresh false)
      (remove false ops node_key 2
        ((insert false ops node_key 2 head (marked_node false)).1)
        ((insert false ops node_key 2 head (marked_node false)).2))
insert-remove_example =
    insert-remove false ops node_key head laws 2 (omega arith) (marked_node false)
      (marked_node-IsValid false) (marked_node-IsMarked false) (marked_node-fresh false)
      (insert_adds false) (omega arith)

insert-remove_slot_example :
    IsBack true ops node_key head laws 2
      (omega arith)
      (marked_node true)
      (marked_node-IsValid true)
      (marked_node-IsMarked true)
      (marked_node-fresh true)
      (remove_slot true ops node_key 2
        ((insert true ops node_key 2 head (marked_node true)).1)
        ((insert true ops node_key 2 head (marked_node true)).2))
insert-remove_slot_example =
    insert-remove_slot ops node_key head laws 2 (omega arith) (marked_node true)
      (marked_node-IsValid true) (marked_node-IsMarked true) (marked_node-fresh true)
      (insert_adds true) (omega arith)

-- Node 1 in slot 0 of bucket 1, which its hash says.
abbrev second_node : Fields
second_node = record { table = set_slot 1 0 1 1 zeroed; hash_field = λ n. 1; slot_field = λ n. 0 }

second_node-IsValid : IsValid (fp_nodes ops node_key 1 laws) (second_node.table)
second_node-IsValid =
    store-IsValid (zeroed-IsValid ops node_key 1 laws) 1 0 1 (omega arith, omega arith) refl
      (omega arith) (omega arith) (inr refl) (λ k n q (b, s, r, o, ek, ei). o (omega arith))

remove-reinsert_example :
    (((insert false ops node_key 1 head second_node).2).table.idx 1 0 ≡ 1)
    × ((remove false ops node_key 1
          ((insert false ops node_key 1 head second_node).1)
          ((insert false ops node_key 1 head second_node).2)).0
        ≡ 0)
unfolding set_slot
remove-reinsert_example =
    remove-reinsert false ops node_key head laws second_node second_node-IsValid 1 0 (omega arith)
      (omega arith) refl

nb_bk_hint-least_example :
    ((k : ℕ) × (nb_bk_hint 100 ≡ 2 ^ k))
    × (2 ≤ nb_bk_hint 100)
    × (100 ≤ 8 * nb_bk_hint 100)
    × ((nb_bk_hint 100 ≡ 2) ⊎ (4 * nb_bk_hint 100 < 100))
nb_bk_hint-least_example = nb_bk_hint-least 100 (omega arith)

-- 100 entries get 16 buckets, and a number that overflows when it is rounded up gets two.
nb_bk_hint_runs : (nb_bk_hint 100 ≡ 16) × (nb_bk_hint (2 ^ 32 - 1) ≡ 2)
unfolding nb_bk_hint or_shift
nb_bk_hint_runs = (refl, refl)
