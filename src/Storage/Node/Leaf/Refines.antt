-- ===== src/Storage/Node/Leaf/Refines.antt =====
-- `insertLeafEntry` refines insertion into the list of the entries.
use my_sqlight.Storage.Node.Leaf.Moves.{length-insert_at, insert_at}
use my_sqlight.Storage.Node.Leaf.Holds.{SlotHolds, LeafHolds}
use my_sqlight.Prelude.{subst, ap, ◌∙◌, ℕ, ◌+◌, ◌-◌, ◌*◌, ◌≤◌, ◌≡◌, refl, arith, length, ok}
use my_sqlight.Bytes.{Bytes, put_be}
use my_sqlight.Files.{read_at, write_at}
use my_sqlight.Storage.Node.{
  sub_u16, u16, increment_key_count, find_free_space, new_free_space, key_count,
}
use my_sqlight.Storage.Node.Reads.{
  slice_inside, copy_at_inside, get_number_inside, put_number_inside,
}
use my_sqlight.Storage.Node.Leaf.{Entries, place_entry, place_slot, insert_leaf_entry}
use my_sqlight.Storage.Node.Leaf.Insert.{
  read_at-with_free, read_at-inserted, length-inserted, with_value, with_key, with_free, moved,
  with_moved, with_slot, inserted, new_slot, length-new_slot, length-with_value, length-with_key,
  length-with_free, length-moved, length-with_moved, length-with_slot,
}
use my_sqlight.Storage.Node.Leaf.Moves.{insert_at, length-insert_at, SlotsHold-insert_at}
use my_sqlight.Storage.Node.Leaf.Inserted.{
  new_SlotHolds, moved_slot, front_slot, heap_there, free_there, count_there, count_still,
  count_slotted,
}

sub_u16_inside : (x y : ℕ) → y ≤ x → x ≤ 4096 → sub_u16 x y ≡ x - y
sub_u16_inside x y h k = omega arith

u16_inside : (x : ℕ) → x ≤ 4096 → u16 x ≡ x
u16_inside x h = omega arith

module _ (page key value : Bytes) (free i count : ℕ) (size : length page ≡ 4096) (low : i ≤ count)
    (room : 9 + count * 8 + 8 + length key + length value ≤ free) (top : free ≤ 4096) where
  place_entry-with_free :
      place_entry page key value (free - length value) ≡ ok (with_free page key value free i count)
  unfolding place_entry new_free_space with_free with_key with_value
  place_entry-with_free =
      rw
        (
          copy_at_inside page value (free - length value) size (omega arith),
          sub_u16_inside (free - length value) (length key) (omega arith) (omega arith),
          copy_at_inside (write_at page (free - length value) value) key
              (free - length value - length key)
              (length-with_value page key value free i count size low room top) (omega arith),
          put_number_inside 2
              (write_at (write_at page (free - length value) value)
                (free - length value - length key) key)
              3 (free - length value - length key)
              (length-with_key page key value free i count size low room top) (omega arith),
        )
        refl

  module _ (count_read : read_at page 1 2 ≡ put_be 2 count)
      (free_read : read_at page 3 2 ≡ put_be 2 free) where
    place_slot-with_slot :
        place_slot
          (with_free page key value free i count)
          (9 + i * 8)
          (new_slot page key value free i count)
        ≡ ok (with_slot page key value free i count)
    unfolding place_slot key_count with_slot with_moved moved
    place_slot-with_slot =
        rw
          (
            get_number_inside 2 (with_free page key value free i count) 1 count
                (length-with_free page key value free i count size low room top) (omega arith)
                (omega arith)
                (count_still page key value free i count size low room top count_read free_read),
            slice_inside (with_free page key value free i count) (9 + i * 8) (9 + count * 8)
                (length-with_free page key value free i count size low room top) (omega arith)
                (omega arith),
            copy_at_inside (with_free page key value free i count)
                (read_at (with_free page key value free i count) (9 + i * 8)
                  (9 + count * 8 - (9 + i * 8)))
                (9 + i * 8 + 8) (length-with_free page key value free i count size low room top)
                (omega (arith, length-moved page key value free i count size low room top)),
            copy_at_inside
                (write_at (with_free page key value free i count) (9 + i * 8 + 8) (
                  read_at (with_free page key value free i count) (9 + i * 8)
                    (9 + count * 8 - (9 + i * 8))))
                (new_slot page key value free i count) (9 + i * 8)
                (length-with_moved page key value free i count size low room top)
                (omega (arith, length-new_slot page key value free i count size low room top)),
          )
          refl

    increment-inserted :
        increment_key_count (with_slot page key value free i count)
        ≡ ok (inserted page key value free i count)
    unfolding increment_key_count key_count inserted
    increment-inserted =
        rw
          (
            get_number_inside 2 (with_slot page key value free i count) 1 count
                (length-with_slot page key value free i count size low room top) (omega arith)
                (omega arith)
                (count_slotted page key value free i count size low room top count_read free_read),
            u16_inside (count + 1) (omega arith),
            put_number_inside 2 (with_slot page key value free i count) 1 (count + 1)
                (length-with_slot page key value free i count size low room top) (omega arith),
          )
          refl

    insert_leaf_entry-inserted :
        insert_leaf_entry page key value i ≡ ok (inserted page key value free i count)
    unfolding insert_leaf_entry find_free_space
    insert_leaf_entry-inserted =
        rw
          (
            get_number_inside 2 page 3 free size (omega arith) (omega arith) free_read,
            sub_u16_inside free (length value) (omega arith) (omega arith),
            sub_u16_inside (free - length value) (length key) (omega arith) (omega arith),
            u16_inside (length key) (omega arith),
            u16_inside (length value) (omega arith),
            place_entry-with_free,
            place_slot-with_slot,
          )
          increment-inserted

inserted-LeafHolds :
    (page key value : Bytes) (entries : Entries) (i : ℕ) (h : LeafHolds page entries)
    → i ≤ length entries
    → 9 + length entries * 8 + 8 + length key + length value ≤ h.free
    → (h' : LeafHolds
        (inserted page key value h.free i (length entries))
        (insert_at i (key, value) entries))
      × (h'.free ≡ h.free - length value - length key)
inserted-LeafHolds page key value entries i h low room = (
  record {
    free = h.free - length value - length key;
    size = length-inserted page key value h.free i (length entries) h.size low room h.top;
    count_read =
        count_there page key value h.free i (length entries) h.size low room h.top
        ∙ ap (put_be 2) (omega (arith, length-insert_at i (key, value) entries));
    free_read = free_there page key value h.free i (length entries) h.size low room h.top;
    room = omega (arith, length-insert_at i (key, value) entries);
    top = omega (arith, h.top);
    slots =
        SlotsHold-insert_at page (inserted page key value h.free i (length entries)) h.free
          (h.free - length value - length key) (omega arith)
          (heap_there page key value h.free i (length entries) h.size low room h.top) 0 i
          (length entries) key value entries
          (λ j below.
            front_slot page key value h.free i (length entries) h.size low room h.top j
              (omega arith))
          (λ j from below.
            moved_slot page key value h.free i (length entries) h.size low room h.top j (j - i)
              (omega arith) below)
          (subst
            (λ k.
              SlotHolds (inserted page key value h.free i (length entries))
                (h.free - length value - length key) k key value)
            (omega arith)
            (new_SlotHolds page key value h.free i (length entries) h.size low room h.top))
          low (omega arith) h.slots;
  },
  refl,
)

-- insertLeafEntry on the page of a leaf that holds a list of entries, at an index up to its length,
-- with room for the entry and its slot, does not panic, and the page then holds the list with the
-- entry put in at the index, in as much less free space as the entry has bytes; its type and its
-- right sibling are as before.
pub insert_leaf_entry_refines :
    (page key value : Bytes) (entries : Entries) (i : ℕ) (h : LeafHolds page entries)
    → i ≤ length entries
    → 9 + length entries * 8 + 8 + length key + length value ≤ h.free
    → (page' : Bytes) × (insert_leaf_entry page key value i ≡ ok page')
      × ((h' : LeafHolds page' (insert_at i (key, value) entries)) × (h'.free
            ≡ h.free - length value - length key))
      × (read_at page' 0 1 ≡ read_at page 0 1)
      × (read_at page' 5 4 ≡ read_at page 5 4)
insert_leaf_entry_refines page key value entries i h low room = (
  inserted page key value h.free i (length entries),
  insert_leaf_entry-inserted page key value h.free i (length entries) h.size low room h.top
      h.count_read h.free_read,
  inserted-LeafHolds page key value entries i h low room,
  read_at-inserted page key value h.free i (length entries) h.size low room h.top 0 1 (omega arith)
        (omega arith) (omega arith)
      ∙ read_at-with_free page key value h.free i (length entries) h.size low room h.top 0 1
          (omega arith) (omega arith) (omega arith),
  read_at-inserted page key value h.free i (length entries) h.size low room h.top 5 4 (omega arith)
        (omega arith) (omega arith)
      ∙ read_at-with_free page key value h.free i (length entries) h.size low room h.top 5 4
          (omega arith) (omega arith) (omega arith),
)
