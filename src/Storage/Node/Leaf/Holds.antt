-- ===== src/Storage/Node/Leaf/Holds.antt =====
-- When the page of a leaf holds a list of entries, and what is then read from it.
use my_sqlight.Prelude.{
  ℕ, suc, ◌+◌, ◌-◌, ◌*◌, ◌%◌, ◌^◌, ◌<◌, ◌≤◌, ◌≡◌, ◌∙◌, refl, sym, ap, arith, [], ◌∷◌, length, ok,
}
use my_sqlight.Bytes.{Bytes, put_be}
use my_sqlight.Files.{read_at}
use my_sqlight.Storage.Node.{key_count, pointed}
use my_sqlight.Storage.Node.Reads.{read_at-read_at, slice_inside, get_number_inside}
use my_sqlight.Storage.Node.Leaf.{Entries, slot_bytes, leaf_key, leaf_value}

-- Slot i points to the key and the value, which stand between the free space and the page's end.
pub record SlotHolds (page : Bytes) (free i : ℕ) (key value : Bytes) : Type 0 where
  pub key_at : ℕ
  pub value_at : ℕ
  pub slot : read_at page (9 + i * 8) 8 ≡ slot_bytes key_at (length key) value_at (length value)
  pub key_low : free ≤ key_at
  pub key_high : key_at + length key ≤ 4096
  pub value_low : free ≤ value_at
  pub value_high : value_at + length value ≤ 4096
  pub key_bytes : read_at page key_at (length key) ≡ key
  pub value_bytes : read_at page value_at (length value) ≡ value

abbrev pub SlotsHold : Bytes → ℕ → ℕ → Entries → Type 0
SlotsHold page free i [] = Unit
SlotsHold page free i ((key, value) ∷ entries) =
    SlotHolds page free i key value × SlotsHold page free (suc i) entries

pub record LeafHolds (page : Bytes) (entries : Entries) : Type 0 where
  pub free : ℕ
  pub size : length page ≡ 4096
  pub count_read : read_at page 1 2 ≡ put_be 2 (length entries)
  pub free_read : read_at page 3 2 ≡ put_be 2 free
  pub room : 9 + length entries * 8 ≤ free
  pub top : free ≤ 4096
  pub slots : SlotsHold page free 0 entries

pub key_count-LeafHolds :
    (page : Bytes) (entries : Entries)
    → LeafHolds page entries
    → key_count page ≡ ok (length entries)
unfolding key_count
key_count-LeafHolds page entries h =
    get_number_inside 2 page 1 (length entries) h.size (omega arith)
      (count_small (length entries) h.free h.room h.top) h.count_read
  where
    count_small : (n free : ℕ) → 9 + n * 8 ≤ free → free ≤ 4096 → n < 256 ^ 2
    count_small n free room top = omega arith

-- The four numbers of a slot.
module _ (a b c d : ℕ) where
  slot_first : read_at (slot_bytes a b c d) 0 2 ≡ put_be 2 a
  unfolding slot_bytes read_at put_be
  slot_first = refl

  slot_second : read_at (slot_bytes a b c d) 2 2 ≡ put_be 2 b
  unfolding slot_bytes read_at put_be
  slot_second = refl

  slot_third : read_at (slot_bytes a b c d) 4 2 ≡ put_be 2 c
  unfolding slot_bytes read_at put_be
  slot_third = refl

  slot_fourth : read_at (slot_bytes a b c d) 6 2 ≡ put_be 2 d
  unfolding slot_bytes read_at put_be
  slot_fourth = refl

-- Two numbers of the slot at `o`, and the bytes that they point to.
pointed_inside :
    (page bs : Bytes) (o at : ℕ)
    → length page ≡ 4096
    → o + 4 ≤ 4096
    → at + length bs ≤ 4096
    → read_at page o 2 ≡ put_be 2 at
    → read_at page (o + 2) 2 ≡ put_be 2 (length bs)
    → read_at page at (length bs) ≡ bs
    → pointed page o ≡ ok bs
unfolding pointed
pointed_inside page bs o at size inside end at_read size_read bytes =
    rw
      (
        get_number_inside 2 page o at size (omega arith) (omega arith) at_read,
        get_number_inside 2 page (o + 2) (length bs) size (omega arith) (omega arith) size_read,
        no_wrap,
        slice_inside page at (at + length bs) size (omega arith) end,
        gap,
      )
      (ap ok bytes)
  where
    no_wrap : (at + length bs) % 2 ^ 16 ≡ at + length bs
    no_wrap = omega arith

    gap : at + length bs - at ≡ length bs
    gap = omega arith

-- A number inside a slot.
slot_part :
    (page slot : Bytes) (o j p : ℕ)
    → p ≡ o + j
    → j + 2 ≤ 8
    → read_at page o 8 ≡ slot
    → read_at page p 2 ≡ read_at slot j 2
slot_part page slot o j p at inside read =
    ap (λ q. read_at page q 2) at
    ∙ sym (read_at-read_at page o 8 j 2 inside)
    ∙ ap (λ s. read_at s j 2) read

module _ (page : Bytes) (free i : ℕ) (key value : Bytes) (size : length page ≡ 4096)
    (inside : 9 + i * 8 + 8 ≤ 4096) where
  pub leaf_key-SlotHolds : SlotHolds page free i key value → leaf_key page i ≡ ok key
  unfolding leaf_key
  leaf_key-SlotHolds h =
      pointed_inside page key (9 + i * 8) h.key_at size (omega arith) h.key_high
        (slot_part page (slot_bytes h.key_at (length key) h.value_at (length value)) (9 + i * 8) 0
            (9 + i * 8) (omega arith) (omega arith) h.slot
          ∙ slot_first h.key_at (length key) h.value_at (length value))
        (slot_part page (slot_bytes h.key_at (length key) h.value_at (length value)) (9 + i * 8) 2
            (9 + i * 8 + 2) (omega arith) (omega arith) h.slot
          ∙ slot_second h.key_at (length key) h.value_at (length value))
        h.key_bytes

  pub leaf_value-SlotHolds : SlotHolds page free i key value → leaf_value page i ≡ ok value
  unfolding leaf_value
  leaf_value-SlotHolds h =
      pointed_inside page value (9 + i * 8 + 4) h.value_at size (omega arith) h.value_high
        (slot_part page (slot_bytes h.key_at (length key) h.value_at (length value)) (9 + i * 8) 4
            (9 + i * 8 + 4) (omega arith) (omega arith) h.slot
          ∙ slot_third h.key_at (length key) h.value_at (length value))
        (slot_part page (slot_bytes h.key_at (length key) h.value_at (length value)) (9 + i * 8) 6
            (9 + i * 8 + 4 + 2) (omega arith) (omega arith) h.slot
          ∙ slot_fourth h.key_at (length key) h.value_at (length value))
        h.value_bytes
