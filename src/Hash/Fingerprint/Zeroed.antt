-- ===== src/Hash/Fingerprint/Zeroed.antt =====
-- Buckets of zeroes, which the caller hands to `init`, as a table without nodes.
use relative_q.Base.{ℕ, Bool, refl, sym}
use relative_q.Hash.Cuckoo.{Buckets}
use relative_q.Hash.Cuckoo.Valid.{IsValid}
use relative_q.Hash.Fingerprint.{FpOps}
use relative_q.Hash.Fingerprint.Laws.{FpLaws, fp_nodes}
use relative_q.Hash.Fingerprint.Find.{Holds}
use relative_q.Hash.Fingerprint.Marked.{IsMarked}

abbrev pub zeroed : Buckets
zeroed = record { key = λ b s. 0; idx = λ b s. 0 }

module _ {Key : Type 0} (ops : FpOps Key) (node_key : ℕ → Key) (mask : ℕ)
    (laws : FpLaws ops mask) where
  pub zeroed-IsValid : IsValid (fp_nodes ops node_key mask laws) zeroed
  zeroed-IsValid = record {
    empty = λ b s r e. refl;
    full = λ b s r e. absurd (e refl);
    owned = λ b s r e. absurd (e refl);
    placed = λ b s r e. absurd (e refl);
    unique = λ b s b' s' r r' e e' q. absurd (e refl);
  }

  pub zeroed-IsMarked :
      (with_slot : Bool) (hash slot : ℕ → ℕ)
      → IsMarked with_slot ops node_key mask 0 0
          (record { table = zeroed; hash_field = hash; slot_field = slot })
  zeroed-IsMarked with_slot hash slot = record {
    bucket_of = λ b s r e. absurd (e refl);
    hash_of = λ b s r e. absurd (e refl);
    slot_of = λ b s r e. absurd (e refl);
    apart = λ b s r x. absurd (x refl);
    kept = λ x. absurd (x refl);
  }

  pub zeroed-Holds : (n : ℕ) → ¬ Holds ops node_key mask zeroed n
  zeroed-Holds n (b, s, r, o, ek, ei) = o (sym ei)
