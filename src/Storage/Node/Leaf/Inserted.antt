-- ===== src/Storage/Node/Leaf/Inserted.antt =====
-- What `insertLeafEntry` leaves in the page.
use my_sqlight.Prelude.{ℕ, suc, ◌+◌, ◌-◌, ◌*◌, ◌<◌, ◌≤◌, ◌≡◌, ◌∙◌, refl, sym, ap, arith, length}
use my_sqlight.Bytes.{Bytes, put_be}
use my_sqlight.Bytes.Laws.{length-put_be}
use my_sqlight.Files.{read_at, write_at}
use my_sqlight.Files.Slices.{read_at-write_at, read_at-write_at-Apart}
use my_sqlight.Storage.Node.Reads.{read_at-read_at}
use my_sqlight.Storage.Node.Leaf.Holds.{SlotHolds}
use my_sqlight.Storage.Node.Leaf.Insert.{
  with_value, with_key, with_free, moved, with_moved, with_slot, inserted, new_slot,
  length-new_slot, length-with_value, length-with_key, length-with_free, length-moved,
  length-with_moved, length-with_slot, read_at-with_free, read_at-inserted,
}

-- A read inside what was written.
pub read_at-write_at_part :
    (page bs : Bytes) (o d n : ℕ)
    → d + n ≤ length bs
    → read_at (write_at page o bs) (o + d) n ≡ read_at bs d n
read_at-write_at_part page bs o d n h =
    sym (read_at-read_at (write_at page o bs) o (length bs) d n h)
    ∙ ap (λ x. read_at x d n) (read_at-write_at page bs o (length bs) refl)

module _ (page key value : Bytes) (free i count : ℕ) (size : length page ≡ 4096) (low : i ≤ count)
    (room : 9 + count * 8 + 8 + length key + length value ≤ free) (top : free ≤ 4096) where
  pub front_slot :
      (j : ℕ)
      → j < i
      → read_at (inserted page key value free i count) (9 + j * 8) 8 ≡ read_at page (9 + j * 8) 8
  front_slot j h =
      read_at-inserted page key value free i count size low room top (9 + j * 8) 8 (omega arith)
        (omega arith) (omega arith)
      ∙ read_at-with_free page key value free i count size low room top (9 + j * 8) 8 (omega arith)
          (omega arith) (omega arith)

  pub taken_slot :
      read_at (inserted page key value free i count) (9 + i * 8) 8
      ≡ new_slot page key value free i count
  unfolding inserted with_slot
  taken_slot =
      read_at-write_at-Apart (with_slot page key value free i count) (put_be 2 (count + 1)) 1
        (9 + i * 8) 8 (omega (arith, length-put_be 2 (count + 1)))
        (omega (arith, length-with_slot page key value free i count size low room top))
      ∙ read_at-write_at (with_moved page key value free i count)
          (new_slot page key value free i count) (9 + i * 8) 8
          (sym (length-new_slot page key value free i count size low room top))

  pub moved_slot :
      (j d : ℕ)
      → j ≡ i + d
      → j < count
      → read_at (inserted page key value free i count) (9 + suc j * 8) 8
        ≡ read_at page (9 + j * 8) 8
  unfolding inserted with_slot with_moved moved
  moved_slot j d at h =
      read_at-write_at-Apart (with_slot page key value free i count) (put_be 2 (count + 1)) 1
        (9 + suc j * 8) 8 (omega (arith, length-put_be 2 (count + 1)))
        (omega (arith, length-with_slot page key value free i count size low room top))
      ∙ read_at-write_at-Apart (with_moved page key value free i count)
          (new_slot page key value free i count) (9 + i * 8) (9 + suc j * 8) 8
          (omega (arith, length-new_slot page key value free i count size low room top))
          (omega (arith, length-with_moved page key value free i count size low room top))
      ∙ ap (λ o. read_at (with_moved page key value free i count) o 8) there
      ∙ read_at-write_at_part (with_free page key value free i count)
          (moved page key value free i count) (9 + i * 8 + 8) (d * 8) 8
          (omega (arith, length-moved page key value free i count size low room top))
      ∙ read_at-read_at (with_free page key value free i count) (9 + i * 8)
          (9 + count * 8 - (9 + i * 8)) (d * 8) 8 (omega arith)
      ∙ ap (λ o. read_at (with_free page key value free i count) o 8) back
      ∙ read_at-with_free page key value free i count size low room top (9 + j * 8) 8 (omega arith)
          (omega arith) (omega arith)
    where
      there : 9 + suc j * 8 ≡ 9 + i * 8 + 8 + d * 8
      there = omega arith

      back : 9 + i * 8 + d * 8 ≡ 9 + j * 8
      back = omega arith

  key_there :
      read_at (inserted page key value free i count) (free - length value - length key) (length key)
      ≡ key
  unfolding with_free with_key
  key_there =
      read_at-inserted page key value free i count size low room top
        (free - length value - length key) (length key) (omega arith) (omega arith) (omega arith)
      ∙ read_at-write_at-Apart (with_key page key value free i count)
          (put_be 2 (free - length value - length key)) 3 (free - length value - length key)
          (length key) (omega (arith, length-put_be 2 (free - length value - length key)))
          (omega (arith, length-with_key page key value free i count size low room top))
      ∙ read_at-write_at (with_value page key value free i count) key
          (free - length value - length key) (length key) refl

  value_there :
      read_at (inserted page key value free i count) (free - length value) (length value) ≡ value
  unfolding with_free with_key with_value
  value_there =
      read_at-inserted page key value free i count size low room top (free - length value)
        (length value) (omega arith) (omega arith) (omega arith)
      ∙ read_at-write_at-Apart (with_key page key value free i count)
          (put_be 2 (free - length value - length key)) 3 (free - length value) (length value)
          (omega (arith, length-put_be 2 (free - length value - length key)))
          (omega (arith, length-with_key page key value free i count size low room top))
      ∙ read_at-write_at-Apart (with_value page key value free i count) key
          (free - length value - length key) (free - length value) (length value) (omega arith)
          (omega (arith, length-with_value page key value free i count size low room top))
      ∙ read_at-write_at page value (free - length value) (length value) refl

  pub count_there : read_at (inserted page key value free i count) 1 2 ≡ put_be 2 (count + 1)
  unfolding inserted
  count_there =
      read_at-write_at (with_slot page key value free i count) (put_be 2 (count + 1)) 1 2
        (sym (length-put_be 2 (count + 1)))

  pub free_there :
      read_at (inserted page key value free i count) 3 2
      ≡ put_be 2 (free - length value - length key)
  unfolding with_free
  free_there =
      read_at-inserted page key value free i count size low room top 3 2 (omega arith) (omega arith)
        (omega arith)
      ∙ read_at-write_at (with_key page key value free i count)
          (put_be 2 (free - length value - length key)) 3 2
          (sym (length-put_be 2 (free - length value - length key)))

  pub heap_there :
      (o n : ℕ)
      → free ≤ o
      → o + n ≤ 4096
      → read_at (inserted page key value free i count) o n ≡ read_at page o n
  heap_there o n h inside =
      read_at-inserted page key value free i count size low room top o n inside (omega arith)
        (omega arith)
      ∙ read_at-with_free page key value free i count size low room top o n inside (omega arith)
          (omega arith)

  pub new_SlotHolds :
      SlotHolds
        (inserted page key value free i count)
        (free - length value - length key)
        i
        key
        value
  new_SlotHolds = record {
    key_at = free - length value - length key;
    value_at = free - length value;
    slot = taken_slot;
    key_low = omega arith;
    key_high = omega arith;
    value_low = omega arith;
    value_high = omega arith;
    key_bytes = key_there;
    value_bytes = value_there;
  }

  module _ (count_read : read_at page 1 2 ≡ put_be 2 count)
      (free_read : read_at page 3 2 ≡ put_be 2 free) where
    pub count_still : read_at (with_free page key value free i count) 1 2 ≡ put_be 2 count
    count_still =
        read_at-with_free page key value free i count size low room top 1 2 (omega arith)
          (omega arith) (omega arith)
        ∙ count_read

    pub count_slotted : read_at (with_slot page key value free i count) 1 2 ≡ put_be 2 count
    unfolding with_slot with_moved
    count_slotted =
        read_at-write_at-Apart (with_moved page key value free i count)
          (new_slot page key value free i count) (9 + i * 8) 1 2
          (omega (arith, length-new_slot page key value free i count size low room top))
          (omega (arith, length-with_moved page key value free i count size low room top))
        ∙ read_at-write_at-Apart (with_free page key value free i count)
            (moved page key value free i count) (9 + i * 8 + 8) 1 2
            (omega (arith, length-moved page key value free i count size low room top))
            (omega (arith, length-with_free page key value free i count size low room top))
        ∙ count_still
