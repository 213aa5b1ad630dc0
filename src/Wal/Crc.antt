-- ===== src/Wal/Crc.antt =====
-- `crc32.ChecksumIEEE` of the standard library: the reflected polynomial 0xedb88320.
use my_sqlight.Prelude.{
  ℕ, zero, suc, ◌/◌, ◌%◌, ◌^◌, ◌<◌, arith, bit_xor, ◌==◌, if◌then◌else◌, [], ◌∷◌,
}
use my_sqlight.Bytes.{Bytes}

unfoldable pub crc_shift : ℕ → ℕ
crc_shift c = if c % 2 == 1 then bit_xor (c / 2) 0xedb8_8320 else c / 2

unfoldable pub crc_shifts : ℕ → ℕ → ℕ
crc_shifts zero c = c
crc_shifts (suc n) c = crc_shifts n (crc_shift c)

unfoldable pub crc_bytes : ℕ → Bytes → ℕ
crc_bytes c [] = c
crc_bytes c (b ∷ bs) = crc_bytes (crc_shifts 8 (bit_xor c b)) bs

-- A uint32, so the result is taken modulo 2 ^ 32.
unfoldable pub crc32 : Bytes → ℕ
crc32 bs = bit_xor (crc_bytes 0xffff_ffff bs) 0xffff_ffff % 2 ^ 32

pub crc32-lt : (bs : Bytes) → crc32 bs < 2 ^ 32
unfolding crc32
crc32-lt bs = omega arith
