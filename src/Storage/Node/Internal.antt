-- ===== src/Storage/Node/Internal.antt =====
-- Internal nodes: the accessors, `insertInternalEntry`, `deleteInternalEntry`,
-- `replaceInternalKey` and `rebuildInternal`. Their offsets are uint16.
use my_sqlight.Prelude.{ℕ, zero, suc, ◌+◌, ◌*◌, List, [], ◌∷◌, ◌++◌, length, take, ok, panic, ◌>>=◌}
use my_sqlight.Bytes.{Bytes, put_be}
use my_sqlight.Storage.Node.{
  Access, u16, sub_u16, slice, copy_at, get_number, put_number, make_new_internal_header, key_count,
  increment_key_count, find_free_space, new_free_space, pointed,
}

unfoldable pub child_page_id : Bytes → ℕ → Access ℕ
child_page_id page i = get_number 4 page (5 + i * 4)

unfoldable pub internal_key : Bytes → ℕ → Access Bytes
internal_key page i = key_count page >>= (λ n. pointed page (u16 (5 + (n + 1) * 4 + u16 (i * 4))))

-- The key slots behind the index move by 8, those before it by 4, and the children behind it by 4.
unfoldable pub make_gap : Bytes → ℕ → ℕ → ℕ → Access Bytes
make_gap page n slots_base slot_index =
    slice page (u16 (slots_base + u16 (slot_index * 4))) (u16 (slots_base + u16 (n * 4)))
    >>= (λ behind. copy_at page (slots_base + 4 + (slot_index + 1) * 4) behind >>= (λ a.
        slice a slots_base (u16 (slots_base + u16 slot_index * 4)) >>= (λ front.
          slice a (u16 (slots_base + 4)) (u16 (slots_base + 4 + u16 slot_index * 4)) >>= (λ room.
            copy_at a (u16 (slots_base + 4)) (take (length room) front) >>= (λ b.
              slice b (5 + (slot_index + 1) * 4) (u16 (5 + (n + 1) * 4))
              >>= (λ children. copy_at b (5 + (slot_index + 2) * 4) children))))))

unfoldable pub insert_internal_entry : Bytes → Bytes → ℕ → ℕ → Access Bytes
insert_internal_entry page key slot_index right_child = find_free_space page >>= (λ free.
    key_count page >>= (λ n.
      let insert_key = sub_u16 free (length key) in
      let slots_base = u16 (5 + (n + 1) * 4) in
      make_gap page n slots_base slot_index >>= (λ gap.
        copy_at gap (5 + (slot_index + 1) * 4) (put_be 4 right_child) >>= (λ with_child.
          copy_at with_child (u16 (slots_base + 4 + u16 (slot_index * 4)))
            (put_be 2 insert_key ++ put_be 2 (u16 (length key)))
          >>= (λ with_slot. copy_at with_slot insert_key key >>= (λ with_key.
              new_free_space with_key insert_key >>= (λ freed. increment_key_count freed)))))))

unfoldable pub keys_from : Bytes → ℕ → ℕ → Access (List Bytes)
keys_from page i zero = ok []
keys_from page i (suc n) =
    internal_key page i >>= (λ key. keys_from page (suc i) n >>= (λ rest. ok (key ∷ rest)))

unfoldable pub children_from : Bytes → ℕ → ℕ → Access (List ℕ)
children_from page i zero = ok []
children_from page i (suc n) =
    child_page_id page i >>= (λ child. children_from page (suc i) n >>= (λ rest. ok (child ∷ rest)))

-- Each key with the child behind it; a child that is missing panics.
unfoldable pub insert_separators : Bytes → ℕ → List Bytes → List ℕ → Access Bytes
insert_separators page i [] children = ok page
insert_separators page i (key ∷ keys) [] = panic
insert_separators page i (key ∷ keys) (child ∷ children) =
    insert_internal_entry page key i child
    >>= (λ more. insert_separators more (suc i) keys children)

unfoldable pub packed_internal : List Bytes → List ℕ → Access Bytes
packed_internal keys [] = panic
packed_internal keys (child ∷ children) =
    put_number 4 make_new_internal_header 5 child
    >>= (λ page. insert_separators page 0 keys children)

unfoldable pub rebuild_internal : Bytes → List Bytes → List ℕ → Access Bytes
rebuild_internal page keys children =
    packed_internal keys children >>= (λ packed. copy_at page 0 packed)

abbrev pub without_index {ℓ} : {A : Type ℓ} → ℕ → List A → List A
without_index i [] = []
without_index zero (x ∷ xs) = xs
without_index (suc i) (x ∷ xs) = x ∷ without_index i xs

abbrev pub with_index {ℓ} : {A : Type ℓ} → ℕ → A → List A → List A
with_index i a [] = []
with_index zero a (x ∷ xs) = a ∷ xs
with_index (suc i) a (x ∷ xs) = x ∷ with_index i a xs

unfoldable pub delete_internal_entry : Bytes → ℕ → ℕ → Access Bytes
delete_internal_entry page separator_index child_index = key_count page >>= (λ n.
    keys_from page 0 n >>= (λ keys. children_from page 0 (n + 1) >>= (λ children.
      rebuild_internal page (without_index separator_index keys)
        (without_index child_index children))))

unfoldable pub replace_internal_key : Bytes → ℕ → Bytes → Access Bytes
replace_internal_key page i new_key = key_count page >>= (λ n. keys_from page 0 n >>= (λ keys.
    children_from page 0 (n + 1)
    >>= (λ children. rebuild_internal page (with_index i new_key keys) children)))

unfoldable pub key_sizes : List Bytes → ℕ
key_sizes [] = 0
key_sizes (key ∷ keys) = length key + key_sizes keys

unfoldable pub internal_live_bytes : Bytes → Access ℕ
internal_live_bytes page =
    key_count page
    >>= (λ n. keys_from page 0 n >>= (λ keys. ok (5 + (n + 1) * 4 + n * 4 + key_sizes keys)))
