-- ===== src/Tests/Nodes.antt =====
-- Tests of the leaves of the B+ tree (storage/btree_node.go, storage/btree.go): an empty leaf, and
-- one entry put into it.
use my_sqlight.Prelude.{◌+◌, ◌*◌, ◌-◌, ◌≡◌, ◌≤◌, ◌∙◌, refl, arith, true, [], ◌∷◌, length, some, ok}
use my_sqlight.Bytes.{Bytes, put_be}
use my_sqlight.Files.{read_at}
use my_sqlight.Storage.Node.{make_new_leaf_header, new_header}
use my_sqlight.Storage.Node.Reads.{get_number_inside}
use my_sqlight.Storage.Node.Leaf.{
  Entries, insert_leaf_entry, delete_leaf_entry, compact_leaf, right_sibling, entry_sizes,
}
use my_sqlight.Storage.Node.Leaf.Holds.{LeafHolds}
use my_sqlight.Storage.Node.Leaf.Compact.{header-Packed, compact_leaf_refines}
use my_sqlight.Storage.Node.Leaf.Refines.{insert_leaf_entry_refines}
use my_sqlight.Storage.Node.Leaf.Delete.{delete_leaf_entry_refines}
use my_sqlight.Storage.Tree.Search.{binary_search_keys}
use my_sqlight.Storage.Tree.Search.Correct.{binary_search_keys_counts, count_below}

abbrev key : Bytes
key = 5 ∷ []

abbrev value : Bytes
value = 8 ∷ 9 ∷ []

abbrev entries : Entries
entries = (key, value) ∷ []

abbrev empty : LeafHolds make_new_leaf_header []
empty = header-Packed.0

room : 9 + length {A = Bytes × Bytes} [] * 8 + 8 + length key + length value ≤ empty.free
room = omega (arith, header-Packed.1)

nothing_before : 0 ≤ length {A = Bytes × Bytes} []
nothing_before = omega arith

insert_leaf_entry_refines_example :
    (page : Bytes) × (insert_leaf_entry make_new_leaf_header key value 0 ≡ ok page)
    × ((h : LeafHolds page entries) × (h.free ≡ empty.free - 2 - 1))
    × (read_at page 0 1 ≡ read_at make_new_leaf_header 0 1)
    × (read_at page 5 4 ≡ read_at make_new_leaf_header 5 4)
insert_leaf_entry_refines_example =
    insert_leaf_entry_refines make_new_leaf_header key value [] 0 empty nothing_before room

-- The page with the entry.
put_in :
    (page : Bytes) × ((h : LeafHolds page entries) × (read_at page 5 4
        ≡ read_at make_new_leaf_header 5 4))
put_in =
    let (page, inserts, (h, less), kept, sibling) =
      insert_leaf_entry_refines make_new_leaf_header key value [] 0 empty nothing_before room in
    (page, (h, sibling))

delete_leaf_entry_refines_example :
    (page : Bytes) × (delete_leaf_entry put_in.0 0 ≡ ok page)
    × LeafHolds page []
    × (read_at page 0 1 ≡ read_at put_in.0 0 1)
    × (read_at page 5 4 ≡ read_at put_in.0 5 4)
delete_leaf_entry_refines_example =
    delete_leaf_entry_refines put_in.0 entries 0 put_in.1.0 (omega arith)

header_sibling : read_at make_new_leaf_header 5 4 ≡ put_be 4 0
unfolding read_at new_header put_be
header_sibling = refl

no_sibling : right_sibling put_in.0 ≡ ok 0
unfolding right_sibling
no_sibling =
    get_number_inside 4 put_in.0 5 0 put_in.1.0.size (omega arith) (omega arith)
      (put_in.1.1 ∙ header_sibling)

sizes : 9 + length entries * 8 + entry_sizes entries ≤ 4096
unfolding entry_sizes
sizes = omega arith

compact_leaf_refines_example :
    (page : Bytes) × (compact_leaf put_in.0 ≡ ok page)
    × ((h : LeafHolds page entries) × (h.free ≡ 4096 - entry_sizes entries))
    × (right_sibling page ≡ ok 0)
compact_leaf_refines_example =
    compact_leaf_refines put_in.0 entries 0 put_in.1.0 no_sibling (omega arith) sizes

-- The key 7 is searched for in the leaf with the key 5.
binary_search_keys_counts_example :
    binary_search_keys put_in.0 (7 ∷ []) true ≡ some (ok (count_below (7 ∷ []) entries))
binary_search_keys_counts_example =
    binary_search_keys_counts put_in.0 (7 ∷ []) entries put_in.1.0 (tt, tt)
