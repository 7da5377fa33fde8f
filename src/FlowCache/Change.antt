-- ===== src/FlowCache/Change.antt =====
-- samples/fcache/src/fc_cache_generate.h: the storage after its table or an entry has changed.
use relative_q.Base.{
  ℕ, ◌≡◌, ◌≢◌, ◌⊎◌, ◌↔◌, ◌+◌, ◌-◌, ◌%◌, ◌^◌, ◌∙◌, sym, ap, subst, inl, inr, true, false, refl, ◌==◌,
  arith, Bool-cases, ◌∈◌, ==_iff,
}
use relative_q.Hash.Cuckoo.{Head}
use relative_q.Hash.Cuckoo.Valid.{IsValid, InTable}
use relative_q.Hash.Fingerprint.{FpOps}
use relative_q.Hash.Fingerprint.Laws.{FpLaws, fp_nodes, fp_of, IsHome}
use relative_q.Hash.Fingerprint.Fields.{Fields}
use relative_q.Hash.Fingerprint.Marked.{IsMarked}
use relative_q.Queue.Links.{update}
use relative_q.FlowCache.{Store}
use relative_q.FlowCache.Entries.{set_key}
use relative_q.FlowCache.Invariant.{In, IsStore}
use relative_q.FlowCache.Moves.{Sound, Same}
use relative_q.FlowCache.Lend.{is_lent, update_other, nil_not_mem}

pub set_key-same :
    {Key : Type 0} (f : ℕ → Key) (n : ℕ) (k : Key) (m : ℕ) → m ≡ n → set_key f n k m ≡ k
set_key-same f n k m e = let z : (m == n) ≡ true = ground arith in rw z refl

pub set_key-other :
    {Key : Type 0} (f : ℕ → Key) (n : ℕ) (k : Key) (m : ℕ) → m ≢ n → set_key f n k m ≡ f m
set_key-other f n k m o = let z : (m == n) ≡ false = ground arith in rw z refl

module _ {Key : Type 0} (ops : FpOps Key) (mask : ℕ) (laws : FpLaws ops mask) where
  module _ (key key' : ℕ → Key) (f : Fields)
      (agree : (b s : ℕ)
        → InTable mask b s
        → f.table.idx b s ≢ 0
        → key' (f.table.idx b s) ≡ key (f.table.idx b s)) where
    -- The keys of entries outside the table do not matter.
    rekey-IsValid :
        IsValid (fp_nodes ops key mask laws) f.table → IsValid (fp_nodes ops key' mask laws) f.table
    rekey-IsValid valid = record {
      empty = valid.empty;
      full = valid.full;
      owned = λ b s r o. valid.owned b s r o ∙ ap (fp_of ops mask) (sym (agree b s r o));
      placed =
          λ b s r o. subst (λ k. IsHome ops mask k b) (sym (agree b s r o)) (valid.placed b s r o);
      unique = λ b s b' s' r r' o o' e.
          valid.unique b s b' s' r r' o o' (sym (agree b s r o) ∙ e ∙ agree b' s' r' o');
    }

    rekey-IsMarked : IsMarked true ops key mask 0 0 f → IsMarked true ops key' mask 0 0 f
    rekey-IsMarked marked = record {
      bucket_of = marked.bucket_of;
      hash_of = λ b s r o. elim (marked.hash_of b s r o) [
        | inl e ↦ inl (e ∙ ap (λ k. (ops.hash_fn k mask).val0) (sym (agree b s r o)))
        | inr e ↦ inr (e ∙ ap (λ k. (ops.hash_fn k mask).val1) (sym (agree b s r o)))
      ];
      slot_of = marked.slot_of;
      apart = marked.apart;
      kept = marked.kept;
    }

  module _ (out : ℕ) (st : Store Key) (inv : IsStore ops mask laws out st) where
    -- The key and the time of an entry on loan can be written.
    pub write-IsStore :
        (k : Key) (now : ℕ)
        → IsStore ops mask laws out
            (record st { key = set_key st.key out k; last_ts = update st.last_ts out now })
    write-IsStore k now =
        let agree : (b s : ℕ)
            → InTable mask b s
            → st.fields.table.idx b s ≢ 0
            → set_key st.key out k (st.fields.table.idx b s) ≡ st.key (st.fields.table.idx b s) =
          λ b s r o.
            set_key-other st.key out k (st.fields.table.idx b s)
              (λ e. inv.out_table (b, s, r, (λ z. o (e ∙ z)), e)) in
        record {
          mask_lem = inv.mask_lem;
          valid = rekey-IsValid st.key (set_key st.key out k) st.fields agree inv.valid;
          marked = rekey-IsMarked st.key (set_key st.key out k) st.fields agree inv.marked;
          frees = inv.frees;
          free_holds = inv.free_holds;
          apart = inv.apart;
          covered = inv.covered;
          free_le = inv.free_le;
          in_le = inv.in_le;
          free_ts = λ n i.
              update_other st.last_ts out now n (λ e. inv.out_free (subst (λ n. n ∈ inv.frees) e i))
              ∙ inv.free_ts n i;
          out_free = inv.out_free;
          out_table = inv.out_table;
          out_le = inv.out_le;
          counted = inv.counted;
        }

    -- The time of an entry of the table can be written.
    pub touch-IsStore :
        (n now : ℕ)
        → In mask st.fields.table n
        → IsStore ops mask laws out (record st { last_ts = update st.last_ts n now })
    touch-IsStore n now x = record {
      mask_lem = inv.mask_lem;
      valid = inv.valid;
      marked = inv.marked;
      frees = inv.frees;
      free_holds = inv.free_holds;
      apart = inv.apart;
      covered = inv.covered;
      free_le = inv.free_le;
      in_le = inv.in_le;
      free_ts = λ m i.
          update_other st.last_ts n now m
            (λ e. inv.apart m i (subst (In mask st.fields.table) (sym e) x))
          ∙ inv.free_ts m i;
      out_free = inv.out_free;
      out_table = inv.out_table;
      out_le = inv.out_le;
      counted = inv.counted;
    }

    module _ (h : Head) (f : Fields) (ret : ℕ)
        (sound : Sound ops st.key mask laws (ret, h, f)) where
      abbrev after : Store Key
      after = record st { head = h; fields = f }

      -- The table holds the entries of before.
      pub same-IsStore :
          h.nb ≡ st.head.nb
          → Same ops st.key mask laws st.fields f
          → IsStore ops mask laws out after
      same-IsStore en same = record {
        mask_lem = sound.0;
        valid = sound.1;
        marked = sound.2;
        frees = inv.frees;
        free_holds = inv.free_holds;
        apart = λ n i x. inv.apart n i ((same n).0 x);
        covered =
            λ n o o' l. elim (inv.covered n o o' l) [ inl i ↦ inl i | inr x ↦ inr ((same n).1 x) ];
        free_le = inv.free_le;
        in_le = λ n x. inv.in_le n ((same n).0 x);
        free_ts = inv.free_ts;
        out_free = inv.out_free;
        out_table = λ x. inv.out_table ((same out).0 x);
        out_le = inv.out_le;
        counted = rw en inv.counted;
      }

      -- The table holds the entry on loan too.
      pub added-IsStore :
          out ≢ 0
          → h.nb ≡ (st.head.nb + 1) % 2 ^ 32
          → ((n : ℕ) → In mask f.table n ↔ (In mask st.fields.table n ⊎ (n ≡ out)))
          → IsStore ops mask laws 0 after
      added-IsStore o en eq = record {
        mask_lem = sound.0;
        valid = sound.1;
        marked = sound.2;
        frees = inv.frees;
        free_holds = inv.free_holds;
        apart = λ n i x. elim ((eq n).0 x) [
          | inl y ↦ inv.apart n i y
          | inr e ↦ inv.out_free (subst (λ n. n ∈ inv.frees) e i)
        ];
        covered = λ n z w l. elim (Bool-cases (n == out)) [
          | inl e ↦ inr ((eq n).1 (inr ((==_iff n out).0 e)))
          | inr e ↦ elim (inv.covered n z (λ q. absurd (ground arith)) l) [
            | inl i ↦ inl i
            | inr x ↦ inr ((eq n).1 (inl x))
          ]
        ];
        free_le = inv.free_le;
        in_le = λ n x. elim ((eq n).0 x) [
          | inl y ↦ inv.in_le n y
          | inr e ↦ let l = inv.out_le in omega arith
        ];
        free_ts = inv.free_ts;
        out_free = nil_not_mem _ _ inv.free_holds;
        out_table = λ (b, s, r, z, e). z refl;
        out_le = omega arith;
        counted = let c = rw (is_lent out o) at inv.counted in omega (arith, en);
      }

  -- An entry has left the table for its user.
  pub gone-IsStore :
      (st : Store Key) (inv : IsStore ops mask laws 0 st) (h : Head) (f : Fields) (ret n : ℕ)
      → Sound ops st.key mask laws (ret, h, f)
      → In mask st.fields.table n
      → h.nb ≡ (st.head.nb + (2 ^ 32 - 1)) % 2 ^ 32
      → ((m : ℕ) → In mask f.table m ↔ (In mask st.fields.table m × (m ≢ n)))
      → IsStore ops mask laws n (record st { head = h; fields = f })
  gone-IsStore st inv h f ret n sound x en eq =
      let o : n ≢ 0 = λ q. let (b, s, r, z, e) = x in z q in
      record {
        mask_lem = sound.0;
        valid = sound.1;
        marked = sound.2;
        frees = inv.frees;
        free_holds = inv.free_holds;
        apart = λ m i y. inv.apart m i (((eq m).0 y).0);
        covered =
            λ m z w l. elim (inv.covered m z z l) [ inl i ↦ inl i | inr y ↦ inr ((eq m).1 (y, w)) ];
        free_le = inv.free_le;
        in_le = λ m y. inv.in_le m (((eq m).0 y).0);
        free_ts = inv.free_ts;
        out_free = λ i. inv.apart n i x;
        out_table = λ y. ((eq n).0 y).1 refl;
        out_le = inv.in_le n x;
        counted = let c = inv.counted in rw (is_lent n o) (omega (arith, en));
      }
