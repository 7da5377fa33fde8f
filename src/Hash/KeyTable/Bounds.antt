-- ===== src/Hash/KeyTable/Bounds.antt =====
-- The bucket numbers of a key, and what a node is to the table.
use relative_q.Base.{ℕ, ◌≡◌, ◌≤◌, ◌⊎◌, inl, inr, refl, ◌==◌, Bool-cases}
use relative_q.Base.Bits.{bit_and-le}
use relative_q.Hash.Cuckoo.Valid.{NodeInfo}
use relative_q.Hash.KeyTable.{Ops, OpsLaws, bucket0, bucket1, alt_bucket, scheme}

module _ (ops : Ops) (mask key : ℕ) where
  pub bucket0-le : bucket0 ops mask key ≤ mask
  unfolding bucket0
  bucket0-le = bit_and-le _ mask

  pub bucket1-le : bucket1 ops mask key ≤ mask
  unfolding bucket1
  bucket1-le = bit_and-le _ mask

  -- A bucket of a key.
  abbrev pub IsHome : ℕ → Type 0
  IsHome b = (b ≡ bucket0 ops mask key) ⊎ (b ≡ bucket1 ops mask key)

  pub IsHome-le : (b : ℕ) → IsHome b → b ≤ mask
  IsHome-le b h = elim h [ inl e ↦ rw e bucket0-le | inr e ↦ rw e bucket1-le ]

  pub alt_bucket-IsHome : (iv b : ℕ) → IsHome (alt_bucket ops iv mask b key)
  unfolding alt_bucket
  alt_bucket-IsHome iv b = elim (Bool-cases (b == bucket0 ops mask key)) [
    | inl e ↦ inr (rw e refl)
    | inr e ↦ inl (rw e refl)
  ]

-- `node_key` gives the key field of a node. A slot holds the key itself.
abbrev pub key_nodes :
    (ops : Ops) → OpsLaws ops → (iv mask : ℕ) → (ℕ → ℕ) → NodeInfo (scheme ops iv) mask
key_nodes ops laws iv mask node_key = record {
  Key = ℕ;
  key = node_key;
  tag = node_key;
  IsHome = λ n b. IsHome ops mask (node_key n) b;
  find_lem = laws.find_key_lem;
  home-le = λ n b h. IsHome-le ops mask (node_key n) b h;
  alt-IsHome = λ n b o h. alt_bucket-IsHome ops mask (node_key n) iv b;
}
