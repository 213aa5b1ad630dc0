-- ===== src/Storage/Tree/Search.antt =====
-- `binarySearchKeys` of storage/btree.go. The upper bound is kept as `high + 1`, which starts at
-- the number of keys; the loop is recursion on fuel, where `none` means that it ran out.
pub mod Correct
use my_sqlight.Prelude.{
  ℕ, zero, suc, ◌+◌, ◌-◌, ◌/◌, ltb, not, if◌then◌else◌, Bool, true, false, Option, some, none,
  Result, ok, err, panic,
}
use my_sqlight.Bytes.{Bytes, bytes_ltb}
use my_sqlight.Storage.Node.{Access, NodeError, key_count}
use my_sqlight.Storage.Node.Leaf.{leaf_key}
use my_sqlight.Storage.Node.Internal.{internal_key}

-- The key in the middle is less than the one searched for; in an internal node, at most.
unfoldable pub goes_right : Bool → Bytes → Bytes → Bool
goes_right true found key = bytes_ltb found key
goes_right false found key = not (bytes_ltb key found)

unfoldable pub key_at : Bool → Bytes → ℕ → Access Bytes
key_at true page i = leaf_key page i
key_at false page i = internal_key page i

-- A round of the loop between `low` and `high`, given the key in the middle and what the two ways
-- to go on yield.
unfoldable pub go_on :
    Bool → Bytes → Access Bytes → Option (Access ℕ) → Option (Access ℕ) → Option (Access ℕ)
go_on leaf key (ok found) right left = if goes_right leaf found key then right else left
go_on leaf key (err e) right left = some (err e)
go_on leaf key panic right left = some panic

abbrev pub middle : ℕ → ℕ → ℕ
middle low end = low + (end - 1 - low) / 2

unfoldable pub search_keys : ℕ → Bool → Bytes → Bytes → ℕ → ℕ → Option (Access ℕ)
search_keys zero leaf page key low end = none
search_keys (suc fuel) leaf page key low end =
    let right = search_keys fuel leaf page key (middle low end + 1) end in
    let left = search_keys fuel leaf page key low (middle low end) in
    if ltb low end
    then go_on leaf key (key_at leaf page (middle low end)) right left
    else some (ok low)

-- Every round halves what is left, so one round for each key and one more are enough.
unfoldable pub search_counted : Bool → Bytes → Bytes → Access ℕ → Option (Access ℕ)
search_counted leaf page key (ok n) = search_keys (suc n) leaf page key 0 n
search_counted leaf page key (err e) = some (err e)
search_counted leaf page key panic = some panic

unfoldable pub binary_search_keys : Bytes → Bytes → Bool → Option (Access ℕ)
binary_search_keys page key leaf = search_counted leaf page key (key_count page)
