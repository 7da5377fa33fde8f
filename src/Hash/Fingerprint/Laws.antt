-- ===== src/Hash/Fingerprint/Laws.antt =====
-- What the tables of fingerprints rely on, and what a node is to them.
use Prim.Native.Nat.{bit_and, bit_xor}
use relative_q.Base.{ℕ, ◌≡◌, ◌≢◌, ◌≤◌, ◌⊎◌, ◌↔◌, inl, inr, refl, ap, ◌==◌, Bool-cases}
use relative_q.Base.Bits.{bit_and-le}
use relative_q.Base.Bits.Xor.{bit_xor_zero}
use relative_q.Hash.Arch.{IsFind, find_u32x16_gen}
use relative_q.Hash.Cuckoo.Valid.{NodeInfo}
use relative_q.Hash.Fingerprint.{FpOps}
use relative_q.Hash.Fingerprint.KeyOnly.{alt_bucket, scheme}

-- `cmp_fn` is 0 for equal keys only, and `hash_fn` gives two different buckets.
pub record FpLaws {Key : Type 0} (ops : FpOps Key) (mask : ℕ) : Type 0 where
  pub find_lem : IsFind ops.find
  pub find_2_lem :
      (arr : ℕ → ℕ) (val0 val1 : ℕ)
      → ops.find_2 arr val0 val1 ≡ (find_u32x16_gen arr val0, find_u32x16_gen arr val1)
  pub cmp_fn_iff : (a b : Key) → (ops.cmp_fn a b ≡ 0) ↔ (a ≡ b)
  pub distinct :
      (key : Key)
      → bit_and ((ops.hash_fn key mask).val0) mask ≢ bit_and ((ops.hash_fn key mask).val1) mask

module _ {Key : Type 0} (ops : FpOps Key) (mask : ℕ) where
  abbrev pub bucket0 : Key → ℕ
  bucket0 key = bit_and ((ops.hash_fn key mask).val0) mask

  abbrev pub bucket1 : Key → ℕ
  bucket1 key = bit_and ((ops.hash_fn key mask).val1) mask

  abbrev pub fp_of : Key → ℕ
  fp_of key = bit_xor ((ops.hash_fn key mask).val0) ((ops.hash_fn key mask).val1)

  pub fp_of_pos : FpLaws ops mask → (key : Key) → fp_of key ≢ 0
  fp_of_pos laws key e = laws.distinct key (ap (λ h. bit_and h mask) (bit_xor_zero _ _ e))

  abbrev pub IsHome : Key → ℕ → Type 0
  IsHome key b = (b ≡ bucket0 key) ⊎ (b ≡ bucket1 key)

  pub IsHome-le : (key : Key) (b : ℕ) → IsHome key b → b ≤ mask
  IsHome-le key b h = elim h [ inl e ↦ rw e (bit_and-le _ mask) | inr e ↦ rw e (bit_and-le _ mask) ]

module _ {Key : Type 0} (ops : FpOps Key) (node_key : ℕ → Key) (mask : ℕ) where
  pub alt_bucket-IsHome :
      (b n : ℕ) → IsHome ops mask (node_key n) (alt_bucket ops node_key mask b n)
  unfolding alt_bucket
  alt_bucket-IsHome b n = elim (Bool-cases (b == bucket0 ops mask (node_key n))) [
    | inl e ↦ inr (rw e refl)
    | inr e ↦ inl (rw e refl)
  ]

  abbrev pub fp_nodes : FpLaws ops mask → NodeInfo (scheme ops node_key) mask
  fp_nodes laws = record {
    Key = Key;
    key = node_key;
    tag = λ n. fp_of ops mask (node_key n);
    IsHome = λ n b. IsHome ops mask (node_key n) b;
    find_lem = laws.find_lem;
    home-le = λ n b h. IsHome-le ops mask (node_key n) b h;
    alt-IsHome = λ n b o h. alt_bucket-IsHome b n;
  }
