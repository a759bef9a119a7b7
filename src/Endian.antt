-- ===== src/Endian.antt =====
-- lib/log_store/endian_encode.h: `_enc` and `_dec` of 2, 4 and 8 bytes reverse the order of the bytes
-- on a little-endian host. A signed argument stands for its bit pattern.
mod Bits
pub mod Order
pub mod Hosts
pub mod Tests
use Prim.Native.Nat.{bit_and, bit_or}
use home_replication.Base.{◌==◌, if◌then◌else◌, ℕ, ◌*◌, ◌/◌, ◌%◌, ◌^◌, ◌≡◌, refl}

-- A shift to the left in an unsigned type of `w` bits.
abbrev pub shl : ℕ → ℕ → ℕ → ℕ
shl w v k = v * 2 ^ k % 2 ^ w

abbrev pub shr : ℕ → ℕ → ℕ
shr v k = v / 2 ^ k

infixl 40 ◌∣◌
abbrev ◌∣◌ : ℕ → ℕ → ℕ
a ∣ b = bit_or a b

pub reverse_order_64 : ℕ → ℕ
reverse_order_64 v =
    shr (bit_and v 0xff00000000000000) 56
    ∣ shr (bit_and v 0x00ff000000000000) 40
    ∣ shr (bit_and v 0x0000ff0000000000) 24
    ∣ shr (bit_and v 0x000000ff00000000) 8
    ∣ shl 64 (bit_and v 0x00000000ff000000) 8
    ∣ shl 64 (bit_and v 0x0000000000ff0000) 24
    ∣ shl 64 (bit_and v 0x000000000000ff00) 40
    ∣ shl 64 (bit_and v 0x00000000000000ff) 56

pub reverse_order_32 : ℕ → ℕ
reverse_order_32 v =
    shr (bit_and v 0xff000000) 24
    ∣ shr (bit_and v 0x00ff0000) 8
    ∣ shl 32 (bit_and v 0x0000ff00) 8
    ∣ shl 32 (bit_and v 0x000000ff) 24

-- On `int`, to which a 16-bit argument is promoted.
pub reverse_order_16 : ℕ → ℕ
reverse_order_16 v = shr (bit_and v 0xff00) 8 ∣ shl 32 (bit_and v 0x00ff) 8

unfoldable pub enc64 : ℕ → ℕ
unfolding reverse_order_64
enc64 v = reverse_order_64 v

unfoldable pub dec64 : ℕ → ℕ
unfolding reverse_order_64
dec64 v = reverse_order_64 v

unfoldable pub enc32 : ℕ → ℕ
unfolding reverse_order_32
enc32 v = reverse_order_32 v

unfoldable pub dec32 : ℕ → ℕ
unfolding reverse_order_32
dec32 v = reverse_order_32 v

unfoldable pub enc16 : ℕ → ℕ
unfolding reverse_order_16
enc16 v = reverse_order_16 v

unfoldable pub dec16 : ℕ → ℕ
unfolding reverse_order_16
dec16 v = reverse_order_16 v

bytes_swapped : enc64 0x0102030405060708 ≡ 0x0807060504030201
unfolding enc64
bytes_swapped = refl

-- Which of the two branches on `_LITTLE_ENDIAN` the build takes.
pub data Host : Type 0 where
  little : Host
  big : Host

-- `_enc(v)` and `_dec(v)` of an unsigned `v` with the given `sizeof(v)`.
pub enc : Host → ℕ → ℕ → ℕ
enc little size v =
    if size == 8 then enc64 v else if size == 4 then enc32 v else if size == 2 then enc16 v else v
enc big size v = v

pub dec : Host → ℕ → ℕ → ℕ
dec little size v =
    if size == 8 then dec64 v else if size == 4 then dec32 v else if size == 2 then dec16 v else v
dec big size v = v
