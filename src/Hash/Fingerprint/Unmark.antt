-- ===== src/Hash/Fingerprint/Unmark.antt =====
-- `remove` of rix_hash_fp.h and of rix_hash_slot.h, which look where the node says that it is.
use Prim.Native.Nat.{bit_and}
use relative_q.Base.{
  ℕ, Bool, true, false, ◌≡◌, ◌≢◌, inl, inr, ◌∙◌, sym, refl, ap, ◌<◌, ◌==◌, ltb, Bool-cases,
  Option-cases, arith, ◌+◌, ◌-◌, ◌%◌, ◌^◌,
}
use relative_q.Base.Bits.{bit_and-le}
use relative_q.Hash.Arch.{first_hit}
use relative_q.Hash.Arch.First.{first_hit-some, first_hit-none}
use relative_q.Hash.Cuckoo.{Head, set_slot}
use relative_q.Hash.Cuckoo.Slots.{set_slot-cases, ap₂}
use relative_q.Hash.Cuckoo.Valid.{IsValid, InTable}
use relative_q.Hash.Fingerprint.{FpOps}
use relative_q.Hash.Fingerprint.Laws.{FpLaws, fp_nodes}
use relative_q.Hash.Fingerprint.Fields.{Fields, remove, remove_slot}
use relative_q.Hash.Fingerprint.Find.{Holds}
use relative_q.Hash.Fingerprint.Marked.{IsMarked}
use relative_q.Hash.Fingerprint.Remove.{Outcome, removed, remove_at-some}

module _ {Key : Type 0} (with_slot : Bool) (ops : FpOps Key) (node_key : ℕ → Key) (mask : ℕ)
    (st : Fields) (marked : IsMarked with_slot ops node_key mask 0 0 st) where
  -- A slot that is emptied leaves the other nodes marked.
  pub clear-IsMarked :
      (b s : ℕ)
      → IsMarked with_slot ops node_key mask 0 0 (record st { table = set_slot b s 0 0 st.table })
  clear-IsMarked b s =
      let was : (b' s' : ℕ)
          → (set_slot b s 0 0 st.table).idx b' s' ≢ 0
          → (set_slot b s 0 0 st.table).idx b' s' ≡ st.table.idx b' s' =
        λ b' s' o. elim (set_slot-cases b s 0 0 st.table b' s') [
          | inl (p, q, k, i) ↦ absurd (o i)
          | inr (a, k, i) ↦ i
        ] in
      record {
        bucket_of = λ b' s' r o.
            let i = was b' s' o in
            ap (λ n. bit_and (st.hash_field n) mask) i ∙ marked.bucket_of b' s' r (λ z. o (i ∙ z));
        hash_of =
            λ b' s' r o. let i = was b' s' o in rw i (marked.hash_of b' s' r (λ z. o (i ∙ z)));
        slot_of = λ b' s' r o with.
            let i = was b' s' o in
            ap st.slot_field i ∙ marked.slot_of b' s' r (λ z. o (i ∙ z)) with;
        apart = λ b s r x. absurd (x refl);
        kept = λ x. absurd (x refl);
      }

  -- The bucket that a node of the table says is its own.
  pub own_bucket :
      (elm b s : ℕ)
      → InTable mask b s
      → elm ≢ 0
      → st.table.idx b s ≡ elm
      → bit_and (st.hash_field elm) mask ≡ b
  own_bucket elm b s r o e =
      ap (λ n. bit_and (st.hash_field n) mask) (sym e) ∙ marked.bucket_of b s r (λ z. o (sym e ∙ z))

module _ {Key : Type 0} (with_slot : Bool) (ops : FpOps Key) (node_key : ℕ → Key) (h : Head)
    (laws : FpLaws ops h.mask) (st : Fields)
    (valid : IsValid (fp_nodes ops node_key h.mask laws) st.table)
    (marked : IsMarked with_slot ops node_key h.mask 0 0 st) (elm : ℕ) (o : elm ≢ 0) where
  -- `elm` alone has gone, or it was not there, and the nodes are marked.
  abbrev pub Result : ℕ × Head × Fields → Type 0
  Result r =
      Outcome ops node_key h laws st.table elm (r.0, r.1, (r.2).table)
      × IsMarked with_slot ops node_key h.mask 0 0 (r.2)

  abbrev bk : ℕ
  bk = bit_and (st.hash_field elm) h.mask

  -- What is given for a slot that holds `elm`.
  gone :
      (s : ℕ)
      → s < 16
      → st.table.idx bk s ≡ elm
      → Result (
        elm,
        record h { nb = (h.nb + (2 ^ 32 - 1)) % 2 ^ 32 },
        record st { table = set_slot bk s 0 0 st.table },
      )
  gone s u e = (
    inl (
        removed ops node_key h laws st.table elm valid o bk s
          (bit_and-le (st.hash_field elm) h.mask, u) e),
    clear-IsMarked with_slot ops node_key h.mask st marked bk s,
  )

  stays : ¬ Holds ops node_key h.mask st.table elm → Result (0, h, st)
  stays missing = (inr (missing, refl, refl, refl), marked)

  -- `remove` of rix_hash_fp.h, of a node that is not NULL from a valid table of marked nodes: if
  -- it is stored, it is given back and only it has gone; if not, NULL is given and nothing
  -- changes. The table is valid and its nodes are marked afterwards.
  pub remove_marked-Outcome : Result (remove with_slot ops node_key elm h st)
  unfolding remove
  remove_marked-Outcome = elim (Option-cases (first_hit ops.find (st.table.idx bk) elm)) [
    | inr (s, e) ↦
        let (u, i) = first_hit-some laws.find_lem (st.table.idx bk) elm s e in
        let z : (elm == 0) ≡ false = ground arith in
        rw (remove, e, remove_at-some ops node_key h laws st.table elm bk s u i o, z) (gone s u i)
    | inl e ↦
        let missing : ¬ Holds ops node_key h.mask st.table elm = λ (b, s, (l, u), o', ek, ei).
          let at = own_bucket with_slot ops node_key h.mask st marked elm b s (l, u) o ei in
          first_hit-none laws.find_lem (st.table.idx bk) elm s e u
            (ap (λ b. st.table.idx b s) at ∙ ei) in
        rw (remove, e) (stays missing)
  ]

module _ {Key : Type 0} (ops : FpOps Key) (node_key : ℕ → Key) (h : Head) (laws : FpLaws ops h.mask)
    (st : Fields) (valid : IsValid (fp_nodes ops node_key h.mask laws) st.table)
    (marked : IsMarked true ops node_key h.mask 0 0 st) (elm : ℕ) (o : elm ≢ 0) where
  abbrev bk' : ℕ
  bk' = bit_and (st.hash_field elm) h.mask

  abbrev slot : ℕ
  slot = st.slot_field elm

  here : Holds ops node_key h.mask st.table elm → (slot < 16) × (st.table.idx bk' slot ≡ elm)
  here (b, s, (l, u), o', ek, ei) =
      let at = own_bucket true ops node_key h.mask st marked elm b s (l, u) o ei in
      let is : slot ≡ s =
        ap st.slot_field (sym ei) ∙ marked.slot_of b s (l, u) (λ z. o (sym ei ∙ z)) refl in
      (omega arith, ap₂ st.table.idx at is ∙ ei)

  -- `remove` of rix_hash_slot.h: the same, from a table whose nodes keep their slots.
  pub remove_slot-Outcome :
      Result true ops node_key h laws st valid marked elm o (remove_slot true ops node_key elm h st)
  unfolding remove_slot
  remove_slot-Outcome = elim (Bool-cases (ltb slot 16)) [
    | inr z ↦
        rw (remove_slot, z)
          (stays true ops node_key h laws st valid marked elm o
            (λ holds. let (u, e) = here holds in ground arith))
    | inl z ↦ elim (Bool-cases (st.table.idx bk' slot == elm)) [
      | inr w ↦
          rw (remove_slot, z, w)
            (stays true ops node_key h laws st valid marked elm o
              (λ holds. let (u, e) = here holds in ground arith))
      | inl w ↦
          let u : slot < 16 = ground arith in
          let e : st.table.idx bk' slot ≡ elm = ground arith in
          let n : (elm == 0) ≡ false = ground arith in
          rw (remove_slot, z, w, remove_at-some ops node_key h laws st.table elm bk' slot u e o, n)
            (gone true ops node_key h laws st valid marked elm o slot u e)
    ]
  ]
