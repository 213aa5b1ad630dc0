-- ===== src/Storage/Node.antt =====
-- The nodes of the B+ tree in their pages: storage/btree_node.go. A page's bytes are what an
-- operation takes and returns; an access outside them panics.
pub mod Reads
pub mod Leaf
pub mod Internal
use my_sqlight.Prelude.{
  ℕ, zero, suc, ◌+◌, ◌-◌, ◌*◌, ◌%◌, ◌^◌, ◌==◌, leb, ◌&&◌, ◌||◌, if◌then◌else◌, Bool, true, false,
  List, [], ◌∷◌, ◌++◌, length, take, replicate, Result, ok, err, panic, ◌>>=◌,
}
use my_sqlight.Bytes.{Bytes, put_be, from_be}
use my_sqlight.Files.{read_at, write_at}
use my_sqlight.Storage.Pager.{page_bytes}

pub data NodeType : Type 0 where
  node_leaf node_internal : NodeType

pub data NodeError : Type 0 where
  unknown_type : NodeError

pub record Node : Type 0 where
  pub page_id : ℕ
  pub node_type : NodeType
  pub contents : Bytes

abbrev pub Access : Type 0 → Type 0
Access A = Result NodeError A

-- uint16(x), and x - y on uint16
abbrev pub u16 : ℕ → ℕ
u16 x = x % 2 ^ 16

abbrev pub sub_u16 : ℕ → ℕ → ℕ
sub_u16 x y = (x + (2 ^ 16 - y % 2 ^ 16)) % 2 ^ 16

-- `data[low:high]`
unfoldable pub slice : Bytes → ℕ → ℕ → Access Bytes
slice page low high =
    if leb low high && leb high (length page) then ok (read_at page low (high - low)) else panic

-- `copy(data[offset:], bs)` writes what there is room for.
unfoldable pub copy_at : Bytes → ℕ → Bytes → Access Bytes
copy_at page offset bs =
    if leb offset (length page)
    then ok (write_at page offset (take (length page - offset) bs))
    else panic

-- A number of n bytes at an offset.
unfoldable pub get_number : ℕ → Bytes → ℕ → Access ℕ
get_number n page offset =
    if leb (offset + n) (length page) then ok (from_be 0 (read_at page offset n)) else panic

unfoldable pub put_number : ℕ → Bytes → ℕ → ℕ → Access Bytes
put_number n page offset v =
    if leb (offset + n) (length page) then ok (write_at page offset (put_be n v)) else panic

-- A page with its type, no key, and all of it free.
unfoldable pub new_header : ℕ → Bytes
new_header code = code ∷ (put_be 2 0 ++ (put_be 2 page_bytes ++ replicate (page_bytes - 5) 0))

abbrev pub make_new_leaf_header : Bytes
make_new_leaf_header = new_header 1

abbrev pub make_new_internal_header : Bytes
make_new_internal_header = new_header 2

unfoldable pub node_of : ℕ → ℕ → Bytes → Access Node
node_of id code page =
    if code == 1
    then ok (record { page_id = id; node_type = node_leaf; contents = page })
    else if code == 2
    then ok (record { page_id = id; node_type = node_internal; contents = page })
    else err unknown_type

unfoldable pub decode_node : ℕ → Bytes → Access Node
decode_node id [] = panic
decode_node id (code ∷ rest) = node_of id code (code ∷ rest)

unfoldable pub is_leaf : Node → Bool
is_leaf n = elim n.node_type [ node_leaf ↦ true | node_internal ↦ false ]

unfoldable pub key_count : Bytes → Access ℕ
key_count page = get_number 2 page 1

unfoldable pub increment_key_count : Bytes → Access Bytes
increment_key_count page = key_count page >>= (λ n. put_number 2 page 1 (u16 (n + 1)))

unfoldable pub decrement_key_count : Bytes → Access Bytes
decrement_key_count page = key_count page >>= (λ n. put_number 2 page 1 (sub_u16 n 1))

unfoldable pub find_free_space : Bytes → Access ℕ
find_free_space page = get_number 2 page 3

unfoldable pub new_free_space : Bytes → ℕ → Access Bytes
new_free_space page ptr = put_number 2 page 3 ptr

-- The bytes that a slot's offset and length point to.
unfoldable pub pointed : Bytes → ℕ → Access Bytes
pointed page slot = get_number 2 page slot >>= (λ offset.
    get_number 2 page (slot + 2) >>= (λ size. slice page offset (u16 (offset + size))))
