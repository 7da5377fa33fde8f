-- ===== src/Hash/Fingerprint/Flip.antt =====
-- `flipflop` with the hash of the nodes, against `flipflop` of rix_hash_keyonly.h.
use relative_q.Base.{
  ℕ, Bool, ◌≡◌, ◌⊎◌, inl, inr, sym, refl, ◌==◌, Bool-cases, Option-cases, none, some, arith, ◌≢◌,
  false,
}
use relative_q.Hash.Cuckoo.{Buckets, move_entry}
use relative_q.Hash.Cuckoo as Cuckoo
use relative_q.Hash.Cuckoo.Valid.{IsValid, InTable}
use relative_q.Hash.Fingerprint.{FpOps}
use relative_q.Hash.Fingerprint.Laws.{FpLaws, fp_nodes}
use relative_q.Hash.Fingerprint.KeyOnly.{scheme, find_empty}
use relative_q.Hash.Fingerprint.Fields.{Fields, other_bucket, move_node, flipflop}
use relative_q.Hash.Fingerprint.Marked.{IsMarked, other_bucket-alt_bucket, move_node-IsMarked}

module _ {Key : Type 0} (with_slot : Bool) (ops : FpOps Key) (node_key : ℕ → Key) (mask : ℕ)
    (laws : FpLaws ops mask) (new value : ℕ) where
  abbrev Valid : Buckets → Type 0
  Valid t = IsValid (fp_nodes ops node_key mask laws) t

  -- A `flipflop` that moves does the same to the buckets, and one that does not moves in neither.
  pub flip-cases :
      (b s : ℕ) (st : Fields)
      → Valid st.table
      → IsMarked with_slot ops node_key mask new value st
      → InTable mask b s
      → ((flipflop with_slot ops node_key mask b s st ≡ none)
          × (Cuckoo.flipflop (scheme ops node_key) mask b s st.table ≡ none))
        ⊎ ((st' : Fields) × (flipflop with_slot ops node_key mask b s st ≡ some st')
            × (Cuckoo.flipflop (scheme ops node_key) mask b s st.table ≡ some st'.table)
            × IsMarked with_slot ops node_key mask new value st')
  unfolding flipflop Cuckoo.flipflop move_node
  flip-cases b s st valid marked r = elim (Bool-cases (st.table.idx b s == 0)) [
    | inl z ↦ inl (rw (flipflop, z) refl, rw (Cuckoo.flipflop, z) refl)
    | inr z ↦
        let e =
          other_bucket-alt_bucket with_slot ops node_key mask new value laws st valid marked b s r
            (ground arith) in
        let m =
          move_node-IsMarked with_slot ops node_key mask new value laws st valid marked b s r
            (ground arith) in
        elim (Option-cases (find_empty ops node_key (other_bucket mask b s st) st.table)) [
          | inl f ↦ inl (rw (flipflop, z, f) refl, rw (Cuckoo.flipflop, z, sym e, f) refl)
          | inr (es, f) ↦ inr (
            move_node with_slot ops node_key b s (other_bucket mask b s st) es st,
            rw (flipflop, z, f) refl,
            rw (Cuckoo.flipflop, z, sym e, f) refl,
            m es,
          )
        ]
  ]

  pub flipflop-some :
      (b s es : ℕ) (st : Fields)
      → st.table.idx b s ≢ 0
      → find_empty ops node_key (other_bucket mask b s st) st.table ≡ some es
      → flipflop with_slot ops node_key mask b s st
        ≡ some (move_node with_slot ops node_key b s (other_bucket mask b s st) es st)
  unfolding flipflop
  flipflop-some b s es st o f =
      let z : (st.table.idx b s == 0) ≡ false = ground arith in rw (flipflop, z, f) refl
