-- ===== src/Bytes.antt =====
-- Byte slices: big-endian numbers (encoding/binary) and the reads that the decoders make.
-- A byte slice is a list of numbers below 256. A Go string is its bytes.
pub mod Laws
use my_sqlight.Prelude.{ℕ, zero, suc, ◌+◌, ◌*◌, ◌/◌, ◌%◌, ◌^◌, ◌<◌}
use my_sqlight.Prelude.{
  Bool, true, false, ltb, ◌==◌, if◌then◌else◌, List, [], ◌∷◌, ◌++◌, length, Result, ok, err, panic,
  ◌>>=◌,
}

abbrev pub Byte : Type 0
Byte = ℕ

abbrev pub Bytes : Type 0
Bytes = List Byte

abbrev pub IsByte : ℕ → Type 0
IsByte b = b < 256

-- `binary.BigEndian.PutUint{16,32,64}` for a width of n bytes.
unfoldable pub put_be : ℕ → ℕ → Bytes
put_be zero v = []
put_be (suc n) v = put_be n (v / 256) ++ (v % 256 ∷ [])

-- The number that bytes stand for, most significant first, after `acc`.
unfoldable pub from_be : ℕ → Bytes → ℕ
from_be acc [] = acc
from_be acc (b ∷ bs) = from_be (acc * 256 + b) bs

module _ {E : Type 0} where
  -- `data[current : current+n]` with what follows it; it panics where the slice is too short.
  unfoldable pub take_bytes : ℕ → Bytes → Result E (Bytes × Bytes)
  take_bytes zero bs = ok ([], bs)
  take_bytes (suc n) [] = panic
  take_bytes (suc n) (b ∷ bs) = do (front, rest) ← take_bytes n bs; ok (b ∷ front, rest)

  -- `data[current]`, with what follows it.
  unfoldable pub take_byte : Bytes → Result E (Byte × Bytes)
  take_byte [] = panic
  take_byte (b ∷ bs) = ok (b, bs)

  -- `binary.BigEndian.Uint{16,32,64}(data[current:])` for a width of n bytes.
  unfoldable pub take_be : ℕ → Bytes → Result E (ℕ × Bytes)
  take_be n bs = do (front, rest) ← take_bytes n bs; ok (from_be 0 front, rest)

  -- A uint32 length, then that many bytes.
  unfoldable pub take_text : Bytes → Result E (Bytes × Bytes)
  take_text bs = do (n, rest) ← take_be 4 bs; take_bytes n rest

-- `uint32(len(s))` in four bytes, then the bytes.
unfoldable pub put_text : Bytes → Bytes
put_text s = put_be 4 (length s % 2 ^ 32) ++ s

-- Bytewise order of strings.
unfoldable pub bytes_ltb : Bytes → Bytes → Bool
bytes_ltb s [] = false
bytes_ltb [] (b ∷ bs) = true
bytes_ltb (a ∷ as₁) (b ∷ bs) = let rest = bytes_ltb as₁ bs in if a == b then rest else ltb a b
