-- ===== src/Storage/Node/Leaf/Delete.antt =====
-- `deleteLeafEntry` refines removal from the list of the entries.
use my_sqlight.Prelude.{
  ℕ, suc, ◌+◌, ◌-◌, ◌*◌, ◌<◌, ◌≤◌, ◌≡◌, ◌∙◌, ◌⊎◌, refl, sym, ap, arith, length, ok,
}
use my_sqlight.Bytes.{Bytes, put_be}
use my_sqlight.Bytes.Laws.{length-put_be}
use my_sqlight.Files.{read_at, write_at}
use my_sqlight.Files.Slices.{read_at-write_at, read_at-write_at-Apart}
use my_sqlight.Storage.Node.{sub_u16, u16, decrement_key_count, key_count}
use my_sqlight.Storage.Node.Reads.{
  slice_inside, copy_at_inside, get_number_inside, put_number_inside, read_at-read_at,
  length-read_inside, length-write_inside,
}
use my_sqlight.Storage.Node.Leaf.{Entries, delete_leaf_entry}
use my_sqlight.Storage.Node.Leaf.Holds.{LeafHolds}
use my_sqlight.Storage.Node.Leaf.Inserted.{read_at-write_at_part}
use my_sqlight.Storage.Node.Leaf.Moves.{remove_at, length-remove_at, SlotsHold-remove_at}

module _ (page : Bytes) (i count : ℕ) where
  abbrev later_slots : Bytes
  later_slots = read_at page (9 + i * 8 + 8) (9 + count * 8 - (9 + i * 8 + 8))

  unfoldable closed : Bytes
  closed = write_at page (9 + i * 8) later_slots

  unfoldable deleted : Bytes
  deleted = write_at closed 1 (put_be 2 (count - 1))

module _ (page : Bytes) (i count : ℕ) (size : length page ≡ 4096) (low : i < count)
    (top : 9 + count * 8 ≤ 4096) where
  length-later_slots : length (later_slots page i count) ≡ 9 + count * 8 - (9 + i * 8 + 8)
  length-later_slots =
      length-read_inside page (9 + i * 8 + 8) (9 + count * 8 - (9 + i * 8 + 8)) size (omega arith)

  length-closed : length (closed page i count) ≡ 4096
  unfolding closed
  length-closed =
      length-write_inside page (later_slots page i count) (9 + i * 8) size
        (omega (arith, length-later_slots))

  length-deleted : length (deleted page i count) ≡ 4096
  unfolding deleted
  length-deleted =
      length-write_inside (closed page i count) (put_be 2 (count - 1)) 1 length-closed
        (omega (arith, length-put_be 2 (count - 1)))

  read_at-deleted :
      (o n : ℕ)
      → o + n ≤ 4096
      → (3 ≤ o) ⊎ (o + n ≤ 1)
      → (9 + count * 8 ≤ o) ⊎ (o + n ≤ 9 + i * 8)
      → read_at (deleted page i count) o n ≡ read_at page o n
  unfolding deleted closed
  read_at-deleted o n inside header slots =
      read_at-write_at-Apart (closed page i count) (put_be 2 (count - 1)) 1 o n
        (omega (arith, length-put_be 2 (count - 1))) (omega (arith, length-closed))
      ∙ read_at-write_at-Apart page (later_slots page i count) (9 + i * 8) o n
          (omega (arith, length-later_slots)) (omega arith)

  closed_slot :
      (j d : ℕ)
      → j ≡ i + d
      → j < count - 1
      → read_at (deleted page i count) (9 + j * 8) 8 ≡ read_at page (9 + suc j * 8) 8
  unfolding deleted closed
  closed_slot j d at h =
      read_at-write_at-Apart (closed page i count) (put_be 2 (count - 1)) 1 (9 + j * 8) 8
        (omega (arith, length-put_be 2 (count - 1))) (omega (arith, length-closed))
      ∙ ap (λ o. read_at (closed page i count) o 8) there
      ∙ read_at-write_at_part page (later_slots page i count) (9 + i * 8) (d * 8) 8
          (omega (arith, length-later_slots))
      ∙ read_at-read_at page (9 + i * 8 + 8) (9 + count * 8 - (9 + i * 8 + 8)) (d * 8) 8
          (omega arith)
      ∙ ap (λ o. read_at page o 8) back
    where
      there : 9 + j * 8 ≡ 9 + i * 8 + d * 8
      there = omega arith

      back : 9 + i * 8 + 8 + d * 8 ≡ 9 + suc j * 8
      back = omega arith

  count_less : read_at (deleted page i count) 1 2 ≡ put_be 2 (count - 1)
  unfolding deleted
  count_less =
      read_at-write_at (closed page i count) (put_be 2 (count - 1)) 1 2
        (sym (length-put_be 2 (count - 1)))

  module _ (count_read : read_at page 1 2 ≡ put_be 2 count) where
    count_closed : read_at (closed page i count) 1 2 ≡ put_be 2 count
    unfolding closed
    count_closed =
        read_at-write_at-Apart page (later_slots page i count) (9 + i * 8) 1 2
          (omega (arith, length-later_slots)) (omega arith)
        ∙ count_read

    eight_slots : u16 (count * 8) ≡ count * 8
    eight_slots = omega arith

    one_less : sub_u16 count 1 ≡ count - 1
    one_less = omega arith

    delete_leaf_entry-deleted : delete_leaf_entry page i ≡ ok (deleted page i count)
    unfolding delete_leaf_entry key_count decrement_key_count deleted closed
    delete_leaf_entry-deleted =
        rw
          (
            get_number_inside 2 page 1 count size (omega arith) (omega arith) count_read,
            eight_slots,
            slice_inside page (9 + i * 8 + 8) (9 + count * 8) size (omega arith) top,
            copy_at_inside page (later_slots page i count) (9 + i * 8) size
                (omega (arith, length-later_slots)),
            get_number_inside 2 (write_at page (9 + i * 8) (later_slots page i count)) 1 count
                length-closed (omega arith) (omega arith) count_closed,
            one_less,
            put_number_inside 2 (write_at page (9 + i * 8) (later_slots page i count)) 1 (count - 1)
                length-closed (omega arith),
          )
          refl

deleted-LeafHolds :
    (page : Bytes) (entries : Entries) (i : ℕ) (h : LeafHolds page entries)
    → i < length entries
    → LeafHolds (deleted page i (length entries)) (remove_at i entries)
deleted-LeafHolds page entries i h low =
    let top : 9 + length entries * 8 ≤ 4096 = omega (arith, h.room, h.top) in
    record {
      free = h.free;
      size = length-deleted page i (length entries) h.size low top;
      count_read =
          count_less page i (length entries) h.size low top
          ∙ ap (put_be 2) (omega (arith, length-remove_at i entries low));
      free_read =
          read_at-deleted page i (length entries) h.size low top 3 2 (omega arith) (omega arith)
            (omega arith)
          ∙ h.free_read;
      room = omega (arith, length-remove_at i entries low, h.room);
      top = h.top;
      slots =
          SlotsHold-remove_at page (deleted page i (length entries)) h.free h.free (omega arith)
            (λ o n above inside.
              read_at-deleted page i (length entries) h.size low top o n inside
                (omega (arith, h.room)) (omega (arith, h.room)))
            0 i (length entries - 1) entries
            (λ j below.
              read_at-deleted page i (length entries) h.size low top (9 + j * 8) 8 (omega arith)
                (omega arith) (omega arith))
            (λ j from below.
              closed_slot page i (length entries) h.size low top j (j - i) (omega arith) below)
            low (omega arith) h.slots;
    }

-- deleteLeafEntry on the page of a leaf that holds a list of entries, at an index below its length,
-- does not panic, and the page then holds the list without the entry at the index; its type and
-- its right sibling are as before.
pub delete_leaf_entry_refines :
    (page : Bytes) (entries : Entries) (i : ℕ)
    → LeafHolds page entries
    → i < length entries
    → (page' : Bytes) × (delete_leaf_entry page i ≡ ok page')
      × LeafHolds page' (remove_at i entries)
      × (read_at page' 0 1 ≡ read_at page 0 1)
      × (read_at page' 5 4 ≡ read_at page 5 4)
delete_leaf_entry_refines page entries i h low =
    let top : 9 + length entries * 8 ≤ 4096 = omega (arith, h.room, h.top) in
    (
      deleted page i (length entries),
      delete_leaf_entry-deleted page i (length entries) h.size low top h.count_read,
      deleted-LeafHolds page entries i h low,
      read_at-deleted page i (length entries) h.size low top 0 1 (omega arith) (omega arith)
          (omega arith),
      read_at-deleted page i (length entries) h.size low top 5 4 (omega arith) (omega arith)
          (omega arith),
    )
