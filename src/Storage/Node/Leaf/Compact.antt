-- ===== src/Storage/Node/Leaf/Compact.antt =====
-- Reading the entries of a leaf, and `rebuildLeaf` and `compactLeaf`, which pack them anew.
use my_sqlight.Storage.Node.Reads.{
  get_number_inside, put_number_inside, copy_at_inside, length-write_inside,
}
use my_sqlight.Bytes.Laws.{length-put_be}
use my_sqlight.Files.Slices.{read_at-write_at, read_at-write_at-Apart}
use my_sqlight.Storage.Node.Leaf.Refines.{insert_leaf_entry_refines}
use my_sqlight.Storage.Node.{read_at, new_header, make_new_leaf_header}
use my_sqlight.Prelude.{
  zero, suc, ◌⊎◌, length-append, ◌∙◌, sym, subst, append_assoc, append-nil, drop, ◌-◌, ◌<◌, ◌^◌, ℕ,
  suc, ◌+◌, ◌*◌, ◌≤◌, ◌≡◌, refl, ap, arith, [], ◌∷◌, ◌++◌, length, ok,
}
use my_sqlight.Files.{read_at, write_at}
use my_sqlight.Bytes.{put_be, Bytes}
use my_sqlight.Storage.Node.Leaf.{
  set_right_sibling, right_sibling, compact_leaf, rebuild_leaf, entry_sizes, insert_all, Entries,
  entries_from,
}
use my_sqlight.Storage.Node.Leaf.Holds.{
  key_count-LeafHolds, SlotsHold, LeafHolds, leaf_key-SlotHolds, leaf_value-SlotHolds,
}
use my_sqlight.Storage.Node.Leaf.Moves.{kept_SlotsHold, insert_at}

entries_from-SlotsHold :
    (page : Bytes) (free i : ℕ) (entries : Entries)
    → length page ≡ 4096
    → 9 + (i + length entries) * 8 ≤ 4096
    → SlotsHold page free i entries
    → entries_from page i (length entries) ≡ ok entries
unfolding entries_from
entries_from-SlotsHold page free i [] size inside h = refl
entries_from-SlotsHold page free i ((key, value) ∷ entries) size inside (h, hs) =
    rw
      (
        leaf_key-SlotHolds page free i key value size (omega arith) h,
        leaf_value-SlotHolds page free i key value size (omega arith) h,
        entries_from-SlotsHold page free (suc i) entries size (omega arith) hs,
      )
      refl

-- The entries of a page are those that it holds.
pub entries_from-LeafHolds :
    (page : Bytes) (entries : Entries)
    → LeafHolds page entries
    → entries_from page 0 (length entries) ≡ ok entries
entries_from-LeafHolds page entries h =
    entries_from-SlotsHold page h.free 0 entries h.size (omega (arith, h.room, h.top)) h.slots

-- An entry put in behind the last one.
insert_at_end : (xs : Entries) (e : Bytes × Bytes) → insert_at (length xs) e xs ≡ xs ++ (e ∷ [])
insert_at_end [] e = refl
insert_at_end (x ∷ xs) e = ap (◌∷◌ x) (insert_at_end xs e)

-- A page that holds the entries, with as much free space as they leave.
abbrev pub Packed : Bytes → Entries → ℕ → Type 0
Packed page entries free = (h : LeafHolds page entries) × (h.free ≡ free)

insert_all-Packed :
    (page : Bytes) (done entries : Entries) (free : ℕ)
    → 9 + (length done + length entries) * 8 + entry_sizes entries ≤ free
    → Packed page done free
    → (page' : Bytes) × (insert_all page (length done) entries ≡ ok page')
      × Packed page' (done ++ entries) (free - entry_sizes entries)
unfolding insert_all entry_sizes
insert_all-Packed page done [] free room (h, at) =
    (page, refl, subst (λ xs. Packed page xs (free - 0)) (sym (append-nil done)) (h, at ∙ no_less))
  where
    no_less : free ≡ free - 0
    no_less = omega arith
insert_all-Packed page done ((key, value) ∷ entries) free room (h, at) =
    let (page', put_in, (h', less), kept, sibling) =
      insert_leaf_entry_refines page key value done (length done) h (omega arith) (omega arith) in
    let next : Packed page' (done ++ ((key, value) ∷ [])) (free - length value - length key) =
      subst (λ xs. Packed page' xs (free - length value - length key))
        (insert_at_end done (key, value)) (h', less ∙ ap (λ f. f - length value - length key) at) in
    let counted : length (done ++ ((key, value) ∷ [])) ≡ suc (length done) =
      omega (arith, length-append done ((key, value) ∷ [])) in
    let (page'', all_in, packed) =
      insert_all-Packed page' (done ++ ((key, value) ∷ [])) entries
        (free - length value - length key) (omega (arith, counted)) next in
    (
      page'',
      rw put_in (ap (λ n. insert_all page' n entries) (sym counted) ∙ all_in),
      subst (λ f. Packed page'' (done ++ ((key, value) ∷ entries)) f) fewer
          (subst (λ xs. Packed page'' xs (free - length value - length key - entry_sizes entries))
            (append_assoc done ((key, value) ∷ []) entries) packed),
    )
  where
    fewer :
        free - length value - length key - entry_sizes entries
        ≡ free - (length key + length value + entry_sizes entries)
    fewer = omega arith

length-header : length make_new_leaf_header ≡ 4096
unfolding new_header put_be
length-header = refl

pub header-Packed : Packed make_new_leaf_header [] 4096
unfolding new_header put_be read_at
header-Packed = (
  record {
    free = 4096;
    size = length-header;
    count_read = refl;
    free_read = refl;
    room = omega arith;
    top = omega arith;
    slots = tt;
  },
  refl,
)

-- A write of the whole page leaves nothing of the old one.
write_at_whole : (page bs : Bytes) → length page ≡ 4096 → length bs ≡ 4096 → write_at page 0 bs ≡ bs
unfolding write_at
write_at_whole page bs size whole =
    ap (λ rest. bs ++ rest) (drop_all (0 + length bs) page (omega arith)) ∙ append-nil bs
  where
    drop_all : (n : ℕ) (xs : Bytes) → length xs ≤ n → drop n xs ≡ []
    drop_all zero [] h = refl
    drop_all zero (x ∷ xs) h = absurd (omega arith)
    drop_all (suc n) [] h = refl
    drop_all (suc n) (x ∷ xs) h = drop_all n xs (omega arith)

-- The right sibling can be set without a change of the entries.
set_right_sibling-Packed :
    (page : Bytes) (entries : Entries) (free sibling : ℕ)
    → Packed page entries free
    → Packed (write_at page 5 (put_be 4 sibling)) entries free
set_right_sibling-Packed page entries free sibling (h, at) =
    let kept : (o n : ℕ)
        → o + n ≤ 4096
        → (9 ≤ o) ⊎ (o + n ≤ 5)
        → read_at (write_at page 5 (put_be 4 sibling)) o n ≡ read_at page o n =
      λ o n inside apart.
        read_at-write_at-Apart page (put_be 4 sibling) 5 o n
          (omega (arith, length-put_be 4 sibling)) (omega (arith, h.size)) in
    (
      record {
        free = h.free;
        size =
            length-write_inside page (put_be 4 sibling) 5 h.size
              (omega (arith, length-put_be 4 sibling));
        count_read = kept 1 2 (omega arith) (omega arith) ∙ h.count_read;
        free_read = kept 3 2 (omega arith) (omega arith) ∙ h.free_read;
        room = h.room;
        top = h.top;
        slots =
            kept_SlotsHold page (write_at page 5 (put_be 4 sibling)) h.free h.free (omega arith)
              (λ o n above inside. kept o n inside (omega (arith, h.room))) 0 entries
              (λ j low. kept (9 + j * 8) 8 (omega (arith, h.room, h.top)) (omega arith)) h.slots;
      },
      at,
    )

rebuild_leaf-Packed :
    (page : Bytes) (entries : Entries) (sibling : ℕ)
    → length page ≡ 4096
    → right_sibling page ≡ ok sibling
    → sibling < 2 ^ 32
    → 9 + length entries * 8 + entry_sizes entries ≤ 4096
    → (page' : Bytes) × (rebuild_leaf page entries ≡ ok page')
      × Packed page' entries (4096 - entry_sizes entries)
      × (right_sibling page' ≡ ok sibling)
unfolding rebuild_leaf right_sibling set_right_sibling
rebuild_leaf-Packed page entries sibling size linked fits room =
    let (packed, built, (h, at)) =
      insert_all-Packed make_new_leaf_header [] entries 4096 (omega arith) header-Packed in
    (
      write_at packed 5 (put_be 4 sibling),
      rw
          (
            linked,
            built,
            copy_at_inside page packed 0 size (omega (arith, h.size)),
            write_at_whole page packed size h.size,
            put_number_inside 4 packed 5 sibling h.size (omega arith),
          )
          refl,
      set_right_sibling-Packed packed entries (4096 - entry_sizes entries) sibling (h, at),
      get_number_inside 4 (write_at packed 5 (put_be 4 sibling)) 5 sibling
          (length-write_inside packed (put_be 4 sibling) 5 h.size
            (omega (arith, length-put_be 4 sibling)))
          (omega arith) (omega arith)
          (read_at-write_at packed (put_be 4 sibling) 5 4 (sym (length-put_be 4 sibling))),
    )

-- compactLeaf on the page of a leaf that holds a list of entries, whose bytes and slots fit a page,
-- does not panic: the page then holds the same entries, the free space is all of the page that
-- they leave, and the right sibling is the same.
pub compact_leaf_refines :
    (page : Bytes) (entries : Entries) (sibling : ℕ)
    → LeafHolds page entries
    → right_sibling page ≡ ok sibling
    → sibling < 2 ^ 32
    → 9 + length entries * 8 + entry_sizes entries ≤ 4096
    → (page' : Bytes) × (compact_leaf page ≡ ok page')
      × ((h' : LeafHolds page' entries) × (h'.free ≡ 4096 - entry_sizes entries))
      × (right_sibling page' ≡ ok sibling)
unfolding compact_leaf
compact_leaf_refines page entries sibling h linked fits room =
    let (page', built, packed, same) =
      rebuild_leaf-Packed page entries sibling h.size linked fits room in
    (
      page',
      rw (key_count-LeafHolds page entries h, entries_from-LeafHolds page entries h) built,
      packed,
      same,
    )
