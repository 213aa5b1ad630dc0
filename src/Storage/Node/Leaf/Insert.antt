-- ===== src/Storage/Node/Leaf/Insert.antt =====
-- `insertLeafEntry` refines insertion into the list of the entries.
use my_sqlight.Prelude.{◌⊎◌, ℕ, ◌+◌, ◌-◌, ◌*◌, ◌≤◌, ◌≡◌, ◌∙◌, refl, arith, length}
use my_sqlight.Bytes.{Bytes, put_be}
use my_sqlight.Bytes.Laws.{length-put_be}
use my_sqlight.Files.{read_at, write_at}
use my_sqlight.Files.Slices.{read_at-write_at-Apart}
use my_sqlight.Storage.Node.Reads.{length-read_inside, length-write_inside}
use my_sqlight.Storage.Node.Leaf.{slot_bytes}

-- The pages on the way: with the value, the key, the free-space pointer, the moved slots, the new
-- slot and the key count.
module _ (page key value : Bytes) (free i count : ℕ) where
  abbrev pub value_start : ℕ
  value_start = free - length value

  abbrev pub key_start : ℕ
  key_start = free - length value - length key

  abbrev pub new_slot : Bytes
  new_slot = slot_bytes key_start (length key) value_start (length value)

  unfoldable pub with_value : Bytes
  with_value = write_at page value_start value

  unfoldable pub with_key : Bytes
  with_key = write_at with_value key_start key

  unfoldable pub with_free : Bytes
  with_free = write_at with_key 3 (put_be 2 key_start)

  unfoldable pub moved : Bytes
  moved = read_at with_free (9 + i * 8) (9 + count * 8 - (9 + i * 8))

  unfoldable pub with_moved : Bytes
  with_moved = write_at with_free (9 + i * 8 + 8) moved

  unfoldable pub with_slot : Bytes
  with_slot = write_at with_moved (9 + i * 8) new_slot

  unfoldable pub inserted : Bytes
  inserted = write_at with_slot 1 (put_be 2 (count + 1))

module _ (page key value : Bytes) (free i count : ℕ) (size : length page ≡ 4096) (low : i ≤ count)
    (room : 9 + count * 8 + 8 + length key + length value ≤ free) (top : free ≤ 4096) where
  pub length-new_slot : length (new_slot page key value free i count) ≡ 8
  unfolding slot_bytes put_be
  length-new_slot = refl

  pub length-with_value : length (with_value page key value free i count) ≡ 4096
  unfolding with_value
  length-with_value = length-write_inside page value (free - length value) size (omega arith)

  pub length-with_key : length (with_key page key value free i count) ≡ 4096
  unfolding with_key
  length-with_key =
      length-write_inside (with_value page key value free i count) key
        (free - length value - length key) length-with_value (omega arith)

  pub length-with_free : length (with_free page key value free i count) ≡ 4096
  unfolding with_free
  length-with_free =
      length-write_inside (with_key page key value free i count)
        (put_be 2 (free - length value - length key)) 3 length-with_key
        (omega (arith, length-put_be 2 (free - length value - length key)))

  pub length-moved : length (moved page key value free i count) ≡ 9 + count * 8 - (9 + i * 8)
  unfolding moved
  length-moved =
      length-read_inside (with_free page key value free i count) (9 + i * 8)
        (9 + count * 8 - (9 + i * 8)) length-with_free (omega arith)

  pub length-with_moved : length (with_moved page key value free i count) ≡ 4096
  unfolding with_moved
  length-with_moved =
      length-write_inside (with_free page key value free i count)
        (moved page key value free i count) (9 + i * 8 + 8) length-with_free
        (omega (arith, length-moved))

  pub length-with_slot : length (with_slot page key value free i count) ≡ 4096
  unfolding with_slot
  length-with_slot =
      length-write_inside (with_moved page key value free i count)
        (new_slot page key value free i count) (9 + i * 8) length-with_moved
        (omega (arith, length-new_slot))

  pub length-inserted : length (inserted page key value free i count) ≡ 4096
  unfolding inserted
  length-inserted =
      length-write_inside (with_slot page key value free i count) (put_be 2 (count + 1)) 1
        length-with_slot (omega (arith, length-put_be 2 (count + 1)))

  -- A read that neither the header's numbers nor the slots from i on nor the new bytes touch.
  pub read_at-with_free :
      (o n : ℕ)
      → o + n ≤ 4096
      → (5 ≤ o) ⊎ (o + n ≤ 3)
      → (free ≤ o) ⊎ (o + n ≤ free - length value - length key)
      → read_at (with_free page key value free i count) o n ≡ read_at page o n
  unfolding with_value with_key with_free
  read_at-with_free o n inside header heap =
      read_at-write_at-Apart (with_key page key value free i count)
        (put_be 2 (free - length value - length key)) 3 o n
        (omega (arith, length-put_be 2 (free - length value - length key)))
        (omega (arith, length-with_key))
      ∙ read_at-write_at-Apart (with_value page key value free i count) key
          (free - length value - length key) o n (omega arith) (omega (arith, length-with_value))
      ∙ read_at-write_at-Apart page value (free - length value) o n (omega arith) (omega arith)

  pub read_at-inserted :
      (o n : ℕ)
      → o + n ≤ 4096
      → (3 ≤ o) ⊎ (o + n ≤ 1)
      → (9 + count * 8 + 8 ≤ o) ⊎ (o + n ≤ 9 + i * 8)
      → read_at (inserted page key value free i count) o n
        ≡ read_at (with_free page key value free i count) o n
  unfolding inserted with_slot with_moved
  read_at-inserted o n inside header slots =
      read_at-write_at-Apart (with_slot page key value free i count) (put_be 2 (count + 1)) 1 o n
        (omega (arith, length-put_be 2 (count + 1))) (omega (arith, length-with_slot))
      ∙ read_at-write_at-Apart (with_moved page key value free i count)
          (new_slot page key value free i count) (9 + i * 8) o n (omega (arith, length-new_slot))
          (omega (arith, length-with_moved))
      ∙ read_at-write_at-Apart (with_free page key value free i count)
          (moved page key value free i count) (9 + i * 8 + 8) o n (omega (arith, length-moved))
          (omega (arith, length-with_free))
