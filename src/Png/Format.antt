-- ===== src/Png/Format.antt =====
-- What both PNG walkers read of a buffer: 32-bit lengths, chunk types and the signature.
use deedlit_dev.Base.{
  ℕ, ◌+◌, ◌*◌, ◌/◌, ◌%◌, ◌≡◌, refl, Bool, true, arith, ltb, all, [], ◌∷◌, Text, Bytes, codes,
  or_else, get_elem?,
}

-- `buffer[i]`, which both walkers only read in range.
abbrev pub byte : Bytes → ℕ → ℕ
byte b i = or_else (get_elem? b i) 0

-- `buffer.readUInt32BE(offset)`.
unfoldable pub read_uint32_be : Bytes → ℕ → ℕ
read_uint32_be b o =
    byte b o * 16777216 + byte b (o + 1) * 65536 + byte b (o + 2) * 256 + byte b (o + 3)

-- The bytes 89 50 4e 47 0d 0a 1a 0a.
abbrev pub signature : Bytes
signature = 0x89 ∷ 0x50 ∷ 0x4e ∷ 0x47 ∷ 0x0d ∷ 0x0a ∷ 0x1a ∷ 0x0a ∷ []

-- The four bytes that writing a 32-bit length puts down.
unfoldable pub uint32_be : ℕ → Bytes
uint32_be n = (n / 16777216) ∷ (n / 65536 % 256) ∷ (n / 256 % 256) ∷ (n % 256) ∷ []

-- `toString("ascii")`, which clears the high bit of each byte.
unfoldable pub ascii : Bytes → Text
ascii [] = []
ascii (x ∷ xs) = x % 128 ∷ ascii xs

-- No high bit is set.
abbrev pub is_seven_bit : Bytes → Bool
is_seven_bit xs = all (λ x. ltb x 128) xs

pub ascii_seven_bit : (xs : Bytes) → is_seven_bit xs ≡ true → ascii xs ≡ xs
unfolding ascii
ascii_seven_bit [] h = refl
ascii_seven_bit (x ∷ xs) h = ground (arith, ascii_seven_bit xs)

abbrev pub iend : Text
iend = codes "IEND"
