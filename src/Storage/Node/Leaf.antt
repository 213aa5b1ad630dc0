-- ===== src/Storage/Node/Leaf.antt =====
-- Leaf nodes: the accessors, `insertLeafEntry`, `deleteLeafEntry`, `rebuildLeaf` and `compactLeaf`.
pub mod Holds
pub mod Insert
pub mod Moves
pub mod Inserted
pub mod Refines
pub mod Compact
pub mod Delete
use my_sqlight.Prelude.{ℕ, zero, suc, ◌+◌, ◌*◌, List, [], ◌∷◌, ◌++◌, length, ok, ◌>>=◌}
use my_sqlight.Bytes.{Bytes, put_be}
use my_sqlight.Storage.Node.{
  Access, u16, sub_u16, slice, copy_at, get_number, put_number, make_new_leaf_header, key_count,
  increment_key_count, decrement_key_count, find_free_space, new_free_space, pointed,
}

abbrev pub slot_start : ℕ
slot_start = 9

unfoldable pub leaf_key : Bytes → ℕ → Access Bytes
leaf_key page i = pointed page (slot_start + i * 8)

unfoldable pub leaf_value : Bytes → ℕ → Access Bytes
leaf_value page i = pointed page (slot_start + i * 8 + 4)

unfoldable pub right_sibling : Bytes → Access ℕ
right_sibling page = get_number 4 page 5

unfoldable pub set_right_sibling : Bytes → ℕ → Access Bytes
set_right_sibling page id = put_number 4 page 5 id

unfoldable pub slot_bytes : ℕ → ℕ → ℕ → ℕ → Bytes
slot_bytes key_at key_size value_at value_size =
    put_be 2 key_at ++ (put_be 2 key_size ++ (put_be 2 value_at ++ put_be 2 value_size))

-- The value and, below it, the key go to the end of the free space.
unfoldable pub place_entry : Bytes → Bytes → Bytes → ℕ → Access Bytes
place_entry page key value insert_value = copy_at page insert_value value >>= (λ with_value.
    copy_at with_value (sub_u16 insert_value (length key)) key
    >>= (λ with_key. new_free_space with_key (sub_u16 insert_value (length key))))

-- The slots from the index on move up, and the new one takes the place.
unfoldable pub place_slot : Bytes → ℕ → Bytes → Access Bytes
place_slot page slot_byte slot = key_count page >>= (λ n.
    slice page slot_byte (slot_start + n * 8) >>= (λ moved.
      copy_at page (slot_byte + 8) moved >>= (λ shifted. copy_at shifted slot_byte slot)))

unfoldable pub insert_leaf_entry : Bytes → Bytes → Bytes → ℕ → Access Bytes
insert_leaf_entry page key value slot_index = find_free_space page >>= (λ free.
    let insert_value = sub_u16 free (length value) in
    let insert_key = sub_u16 insert_value (length key) in
    place_entry page key value insert_value >>= (λ placed.
      place_slot placed (slot_start + slot_index * 8)
        (slot_bytes insert_key (u16 (length key)) insert_value (u16 (length value)))
      >>= (λ slotted. increment_key_count slotted)))

unfoldable pub delete_leaf_entry : Bytes → ℕ → Access Bytes
delete_leaf_entry page slot_index = key_count page >>= (λ n.
    slice page (slot_start + slot_index * 8 + 8) (slot_start + u16 (n * 8)) >>= (λ moved.
      copy_at page (slot_start + slot_index * 8) moved
      >>= (λ shifted. decrement_key_count shifted)))

abbrev pub Entries : Type 0
Entries = List (Bytes × Bytes)

-- The entries of the slots from i on, the last n.
unfoldable pub entries_from : Bytes → ℕ → ℕ → Access Entries
entries_from page i zero = ok []
entries_from page i (suc n) = leaf_key page i >>= (λ key.
    leaf_value page i
    >>= (λ value. entries_from page (suc i) n >>= (λ rest. ok ((key, value) ∷ rest))))

unfoldable pub entry_sizes : Entries → ℕ
entry_sizes [] = 0
entry_sizes ((key, value) ∷ entries) = length key + length value + entry_sizes entries

unfoldable pub leaf_live_bytes : Bytes → Access ℕ
leaf_live_bytes page =
    key_count page
    >>= (λ n. entries_from page 0 n >>= (λ entries. ok (slot_start + n * 8 + entry_sizes entries)))

unfoldable pub insert_all : Bytes → ℕ → Entries → Access Bytes
insert_all page i [] = ok page
insert_all page i ((key, value) ∷ entries) =
    insert_leaf_entry page key value i >>= (λ more. insert_all more (suc i) entries)

unfoldable pub rebuild_leaf : Bytes → Entries → Access Bytes
rebuild_leaf page entries = right_sibling page >>= (λ sibling.
    insert_all make_new_leaf_header 0 entries
    >>= (λ packed. copy_at page 0 packed >>= (λ copied_. set_right_sibling copied_ sibling)))

unfoldable pub compact_leaf : Bytes → Access Bytes
compact_leaf page =
    key_count page >>= (λ n. entries_from page 0 n >>= (λ entries. rebuild_leaf page entries))
