-- ===== src/Tree.antt =====
-- include/rix/rix_tree.h: the searches of the index-linked red-black tree. A pointer to an element
-- is its 1-origin index. `cmp(key, x) < 0` is `below`, `= 0` is `equal` and `> 0` is `above`.
pub mod Search
use relative_q.Base.{ℕ, zero, suc, ◌==◌, if◌then◌else◌, Option, none, some}

pub data Sign : Type 0 where
  below : Sign
  equal : Sign
  above : Sign

-- The root, and the links of the element array.
pub record Tree : Type 0 where
  pub root : ℕ
  pub left : ℕ → ℕ
  pub right : ℕ → ℕ

unfoldable pub left_idx : Tree → ℕ → ℕ
left_idx t x = if x == 0 then 0 else t.left x

unfoldable pub right_idx : Tree → ℕ → ℕ
right_idx t x = if x == 0 then 0 else t.right x

-- The loop of `find`, on fuel: `none` means that it ran out. `order x` is `cmp` of the key and `x`.
unfoldable pub find_loop : (ℕ → Sign) → Tree → ℕ → ℕ → Option ℕ
find_loop order t zero x = none
find_loop order t (suc fuel) x =
    let lower = find_loop order t fuel (left_idx t x) in
    let upper = find_loop order t fuel (right_idx t x) in
    if x == 0 then some 0 else elim (order x) [ below ↦ lower | above ↦ upper | equal ↦ some x ]

unfoldable pub find : (ℕ → Sign) → ℕ → Tree → Option ℕ
find order fuel t = find_loop order t fuel t.root

unfoldable pub nfind_loop : (ℕ → Sign) → Tree → ℕ → ℕ → ℕ → Option ℕ
nfind_loop order t zero x res = none
nfind_loop order t (suc fuel) x res =
    let lower = nfind_loop order t fuel (left_idx t x) x in
    let upper = nfind_loop order t fuel (right_idx t x) res in
    if x == 0 then some res else elim (order x) [ below ↦ lower | equal ↦ lower | above ↦ upper ]

unfoldable pub nfind : (ℕ → Sign) → ℕ → Tree → Option ℕ
nfind order fuel t = nfind_loop order t fuel t.root 0
