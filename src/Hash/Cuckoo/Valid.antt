-- ===== src/Hash/Cuckoo/Valid.antt =====
-- What the cuckoo hash tables promise: their invariant, and the nodes that they hold.
use relative_q.Base.{ℕ, ◌≤◌, ◌<◌, ◌≡◌, ◌≢◌, ◌↔◌}
use relative_q.Hash.Arch.{IsFind}
use relative_q.Hash.Cuckoo.{Buckets, Scheme}

abbrev pub InTable : ℕ → ℕ → ℕ → Type 0
InTable mask b s = (b ≤ mask) × (s < 16)

-- What a node is to a table with a given mask: its key, what its slot holds in the key array, and
-- the buckets that it may be in. The other bucket of an entry is always one of these.
pub record NodeInfo (c : Scheme) (mask : ℕ) : Type 1 where
  pub Key : Type 0
  pub key : ℕ → Key
  pub tag : ℕ → ℕ
  pub IsHome : ℕ → ℕ → Type 0
  pub find_lem : IsFind c.find
  pub home-le : (n b : ℕ) → IsHome n b → b ≤ mask
  pub alt-IsHome : (n b : ℕ) → n ≢ 0 → IsHome n b → IsHome n (c.alt_bucket mask b (tag n) n)

-- An empty slot holds the invalid key and index 0. A full one holds a node and what belongs to it
-- in the key array, in one of its buckets, and no other slot holds a node with the same key.
pub record IsValid {c : Scheme} {mask : ℕ} (m : NodeInfo c mask) (t : Buckets) : Type 0 where
  pub empty : (b s : ℕ) → InTable mask b s → t.idx b s ≡ 0 → t.key b s ≡ c.invalid_key
  pub full : (b s : ℕ) → InTable mask b s → t.idx b s ≢ 0 → t.key b s ≢ c.invalid_key
  pub owned : (b s : ℕ) → InTable mask b s → t.idx b s ≢ 0 → t.key b s ≡ m.tag (t.idx b s)
  pub placed : (b s : ℕ) → InTable mask b s → t.idx b s ≢ 0 → m.IsHome (t.idx b s) b
  pub unique :
      (b s b' s' : ℕ)
      → InTable mask b s
      → InTable mask b' s'
      → t.idx b s ≢ 0
      → t.idx b' s' ≢ 0
      → m.key (t.idx b s) ≡ m.key (t.idx b' s')
      → (b ≡ b') × (s ≡ s')

-- The table holds node `n`, with `k` in the key array.
abbrev pub Stored : ℕ → Buckets → ℕ → ℕ → Type 0
Stored mask t k n =
    (b : ℕ) × (s : ℕ) × InTable mask b s × (n ≢ 0) × (t.key b s ≡ k) × (t.idx b s ≡ n)

-- The second table is valid and holds the same nodes.
abbrev pub Keeps : {c : Scheme} {mask : ℕ} → NodeInfo c mask → Buckets → Buckets → Type 0
Keeps {mask = mask} m t t' = IsValid m t' × ((k n : ℕ) → Stored mask t k n ↔ Stored mask t' k n)
