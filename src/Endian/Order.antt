-- ===== src/Endian/Order.antt =====
-- The macros of endian_encode.h against the bytes that stand in memory.
use Prim.Native.Nat.{bit_and, bit_or}
use mathlib.Core.List.{reverse, reverse-reverse, reverse-cons}
use home_replication.Base.{
  ℕ, ◌+◌, ◌*◌, ◌/◌, ◌%◌, ◌^◌, ◌<◌, ◌≡◌, refl, ap, ◌∙◌, sym, List, [], ◌∷◌, length, All, All-append,
  arith, length-append,
}
use home_replication.Bytes.{
  Bytes, IsByte, le_bytes, le_value, le_value-lt, length-le_bytes, le_bytes-IsByte,
  le_value-le_bytes, le_bytes-le_value,
}
use home_replication.Endian.Bits.{and_field, or_field}
use home_replication.Endian.{
  reverse_order_64, reverse_order_32, reverse_order_16, shl, shr, enc64, dec64, enc32, dec32, enc16,
  dec16,
}

-- The number whose bytes in memory are those of `v` in reverse.
abbrev pub swapped : ℕ → ℕ → ℕ
swapped k v = le_value (reverse (le_bytes k v))

pub reverse_order_16-swapped : (v : ℕ) → reverse_order_16 v ≡ swapped 2 v
unfolding reverse_order_16 le_bytes le_value
reverse_order_16-swapped v =
    let b0 : ℕ = v / 2 ^ 0 % 256 in
    let b1 : ℕ = v / 2 ^ 8 % 256 in
    let p0 : shr (bit_and v 0xff00) 8 ≡ b1 = omega (arith, and_field 8 v) in
    let p1 : shl 32 (bit_and v 0xff) 8 ≡ b0 * 2 ^ 8 = omega (arith, and_field 0 v) in
    let o1 : bit_or (b1) (b0 * 2 ^ 8) ≡ b1 + b0 * 2 ^ 8 = or_field 8 (b1) b0 (omega arith) in
    rw (p0, p1, o1) (omega arith)

pub reverse_order_32-swapped : (v : ℕ) → reverse_order_32 v ≡ swapped 4 v
unfolding reverse_order_32 le_bytes le_value
reverse_order_32-swapped v =
    let b0 : ℕ = v / 2 ^ 0 % 256 in
    let b1 : ℕ = v / 2 ^ 8 % 256 in
    let b2 : ℕ = v / 2 ^ 16 % 256 in
    let b3 : ℕ = v / 2 ^ 24 % 256 in
    let p0 : shr (bit_and v 0xff000000) 24 ≡ b3 = omega (arith, and_field 24 v) in
    let p1 : shr (bit_and v 0xff0000) 8 ≡ b2 * 2 ^ 8 = omega (arith, and_field 16 v) in
    let p2 : shl 32 (bit_and v 0xff00) 8 ≡ b1 * 2 ^ 16 = omega (arith, and_field 8 v) in
    let p3 : shl 32 (bit_and v 0xff) 24 ≡ b0 * 2 ^ 24 = omega (arith, and_field 0 v) in
    let o1 : bit_or (b3) (b2 * 2 ^ 8) ≡ b3 + b2 * 2 ^ 8 = or_field 8 (b3) b2 (omega arith) in
    let o2 : bit_or (b3 + b2 * 2 ^ 8) (b1 * 2 ^ 16) ≡ b3 + b2 * 2 ^ 8 + b1 * 2 ^ 16 =
      or_field 16 (b3 + b2 * 2 ^ 8) b1 (omega arith) in
    let o3 : bit_or (b3 + b2 * 2 ^ 8 + b1 * 2 ^ 16) (b0 * 2 ^ 24)
        ≡ b3 + b2 * 2 ^ 8 + b1 * 2 ^ 16 + b0 * 2 ^ 24 =
      or_field 24 (b3 + b2 * 2 ^ 8 + b1 * 2 ^ 16) b0 (omega arith) in
    rw (p0, p1, p2, p3, o1, o2, o3) (omega arith)

pub reverse_order_64-swapped : (v : ℕ) → reverse_order_64 v ≡ swapped 8 v
unfolding reverse_order_64 le_bytes le_value
reverse_order_64-swapped v =
    let b0 : ℕ = v / 2 ^ 0 % 256 in
    let b1 : ℕ = v / 2 ^ 8 % 256 in
    let b2 : ℕ = v / 2 ^ 16 % 256 in
    let b3 : ℕ = v / 2 ^ 24 % 256 in
    let b4 : ℕ = v / 2 ^ 32 % 256 in
    let b5 : ℕ = v / 2 ^ 40 % 256 in
    let b6 : ℕ = v / 2 ^ 48 % 256 in
    let b7 : ℕ = v / 2 ^ 56 % 256 in
    let p0 : shr (bit_and v 0xff00000000000000) 56 ≡ b7 = omega (arith, and_field 56 v) in
    let p1 : shr (bit_and v 0xff000000000000) 40 ≡ b6 * 2 ^ 8 = omega (arith, and_field 48 v) in
    let p2 : shr (bit_and v 0xff0000000000) 24 ≡ b5 * 2 ^ 16 = omega (arith, and_field 40 v) in
    let p3 : shr (bit_and v 0xff00000000) 8 ≡ b4 * 2 ^ 24 = omega (arith, and_field 32 v) in
    let p4 : shl 64 (bit_and v 0xff000000) 8 ≡ b3 * 2 ^ 32 = omega (arith, and_field 24 v) in
    let p5 : shl 64 (bit_and v 0xff0000) 24 ≡ b2 * 2 ^ 40 = omega (arith, and_field 16 v) in
    let p6 : shl 64 (bit_and v 0xff00) 40 ≡ b1 * 2 ^ 48 = omega (arith, and_field 8 v) in
    let p7 : shl 64 (bit_and v 0xff) 56 ≡ b0 * 2 ^ 56 = omega (arith, and_field 0 v) in
    let o1 : bit_or (b7) (b6 * 2 ^ 8) ≡ b7 + b6 * 2 ^ 8 = or_field 8 (b7) b6 (omega arith) in
    let o2 : bit_or (b7 + b6 * 2 ^ 8) (b5 * 2 ^ 16) ≡ b7 + b6 * 2 ^ 8 + b5 * 2 ^ 16 =
      or_field 16 (b7 + b6 * 2 ^ 8) b5 (omega arith) in
    let o3 : bit_or (b7 + b6 * 2 ^ 8 + b5 * 2 ^ 16) (b4 * 2 ^ 24)
        ≡ b7 + b6 * 2 ^ 8 + b5 * 2 ^ 16 + b4 * 2 ^ 24 =
      or_field 24 (b7 + b6 * 2 ^ 8 + b5 * 2 ^ 16) b4 (omega arith) in
    let o4 : bit_or (b7 + b6 * 2 ^ 8 + b5 * 2 ^ 16 + b4 * 2 ^ 24) (b3 * 2 ^ 32)
        ≡ b7 + b6 * 2 ^ 8 + b5 * 2 ^ 16 + b4 * 2 ^ 24 + b3 * 2 ^ 32 =
      or_field 32 (b7 + b6 * 2 ^ 8 + b5 * 2 ^ 16 + b4 * 2 ^ 24) b3 (omega arith) in
    let o5 : bit_or (b7 + b6 * 2 ^ 8 + b5 * 2 ^ 16 + b4 * 2 ^ 24 + b3 * 2 ^ 32) (b2 * 2 ^ 40)
        ≡ b7 + b6 * 2 ^ 8 + b5 * 2 ^ 16 + b4 * 2 ^ 24 + b3 * 2 ^ 32 + b2 * 2 ^ 40 =
      or_field 40 (b7 + b6 * 2 ^ 8 + b5 * 2 ^ 16 + b4 * 2 ^ 24 + b3 * 2 ^ 32) b2 (omega arith) in
    let o6 : bit_or (b7 + b6 * 2 ^ 8 + b5 * 2 ^ 16 + b4 * 2 ^ 24 + b3 * 2 ^ 32 + b2 * 2 ^ 40)
          (b1 * 2 ^ 48)
        ≡ b7 + b6 * 2 ^ 8 + b5 * 2 ^ 16 + b4 * 2 ^ 24 + b3 * 2 ^ 32 + b2 * 2 ^ 40 + b1 * 2 ^ 48 =
      or_field 48 (b7 + b6 * 2 ^ 8 + b5 * 2 ^ 16 + b4 * 2 ^ 24 + b3 * 2 ^ 32 + b2 * 2 ^ 40) b1
        (omega arith) in
    let o7 : bit_or
          (b7 + b6 * 2 ^ 8 + b5 * 2 ^ 16 + b4 * 2 ^ 24 + b3 * 2 ^ 32 + b2 * 2 ^ 40 + b1 * 2 ^ 48)
          (b0 * 2 ^ 56)
        ≡ b7
          + b6 * 2 ^ 8
          + b5 * 2 ^ 16
          + b4 * 2 ^ 24
          + b3 * 2 ^ 32
          + b2 * 2 ^ 40
          + b1 * 2 ^ 48
          + b0 * 2 ^ 56 =
      or_field 56
        (b7 + b6 * 2 ^ 8 + b5 * 2 ^ 16 + b4 * 2 ^ 24 + b3 * 2 ^ 32 + b2 * 2 ^ 40 + b1 * 2 ^ 48) b0
        (omega arith) in
    rw (p0, p1, p2, p3, p4, p5, p6, p7, o1, o2, o3, o4, o5, o6, o7) (omega arith)

module _ {ℓ} {A : Type ℓ} where
  pub length-reverse : (xs : List A) → length (reverse xs) ≡ length xs
  length-reverse [] = refl
  length-reverse (x ∷ xs) = rw (reverse-cons x xs, length-append) (omega (arith, length-reverse xs))

  All-reverse {κ} : (P : A → Type κ) (xs : List A) → All P xs → All P (reverse xs)
  All-reverse P [] h = h
  All-reverse P (x ∷ xs) (hx, hxs) =
      rw (reverse-cons x xs) (All-append P (reverse xs) (x ∷ []) (All-reverse P xs hxs) (hx, tt))

reversed-IsByte : (k v : ℕ) → All IsByte (reverse (le_bytes k v))
reversed-IsByte k v = All-reverse IsByte (le_bytes k v) (le_bytes-IsByte k v)

length-reversed : (k v : ℕ) → length (reverse (le_bytes k v)) ≡ k
length-reversed k v = length-reverse (le_bytes k v) ∙ length-le_bytes k v

pub le_bytes-swapped : (k v : ℕ) → le_bytes k (swapped k v) ≡ reverse (le_bytes k v)
le_bytes-swapped k v =
    ap (λ (n : ℕ). le_bytes n (swapped k v)) (sym (length-reversed k v))
    ∙ le_bytes-le_value (reverse (le_bytes k v)) (reversed-IsByte k v)

pub swapped-lt : (k v : ℕ) → swapped k v < 256 ^ k
swapped-lt k v =
    let h = le_value-lt (reverse (le_bytes k v)) (reversed-IsByte k v) in
    rw (length-reversed k v) at h

pub swapped-swapped : (k v : ℕ) → v < 256 ^ k → swapped k (swapped k v) ≡ v
swapped-swapped k v h =
    rw (le_bytes-swapped k v, reverse-reverse (le_bytes k v)) (le_value-le_bytes k v h)

-- A number that was read from memory, its bytes reversed.
pub swapped-le_value :
    (k : ℕ) (bs : Bytes)
    → All IsByte bs
    → length bs ≡ k
    → swapped k (le_value bs) ≡ le_value (reverse bs)
swapped-le_value k bs h e =
    ap (λ (n : ℕ). swapped n (le_value bs)) (sym e)
    ∙ ap (λ (l : Bytes). le_value (reverse l)) (le_bytes-le_value bs h)

pub codec_64 :
    (v : ℕ) → v < 2 ^ 64 → (dec64 (enc64 v) ≡ v) × (le_bytes 8 (enc64 v) ≡ reverse (le_bytes 8 v))
unfolding enc64 dec64
codec_64 v h =
    simp reverse_order_64-swapped (swapped-swapped 8 v (omega arith), le_bytes-swapped 8 v)

pub codec_32 :
    (v : ℕ) → v < 2 ^ 32 → (dec32 (enc32 v) ≡ v) × (le_bytes 4 (enc32 v) ≡ reverse (le_bytes 4 v))
unfolding enc32 dec32
codec_32 v h =
    simp reverse_order_32-swapped (swapped-swapped 4 v (omega arith), le_bytes-swapped 4 v)

pub codec_16 :
    (v : ℕ) → v < 2 ^ 16 → (dec16 (enc16 v) ≡ v) × (le_bytes 2 (enc16 v) ≡ reverse (le_bytes 2 v))
unfolding enc16 dec16
codec_16 v h =
    simp reverse_order_16-swapped (swapped-swapped 2 v (omega arith), le_bytes-swapped 2 v)

-- On every number of 64, 32 and 16 bits, the `_dec` of that width undoes its `_enc`, and the `_enc`
-- puts the bytes into memory in big-endian order.
big_endian :
    (v64 v32 v16 : ℕ)
    → v64 < 2 ^ 64
    → v32 < 2 ^ 32
    → v16 < 2 ^ 16
    → ((dec64 (enc64 v64) ≡ v64) × (le_bytes 8 (enc64 v64) ≡ reverse (le_bytes 8 v64)))
      × ((dec32 (enc32 v32) ≡ v32) × (le_bytes 4 (enc32 v32) ≡ reverse (le_bytes 4 v32)))
      × ((dec16 (enc16 v16) ≡ v16) × (le_bytes 2 (enc16 v16) ≡ reverse (le_bytes 2 v16)))
big_endian v64 v32 v16 h64 h32 h16 = (codec_64 v64 h64, codec_32 v32 h32, codec_16 v16 h16)

pub enc_bounds : (v : ℕ) → (enc64 v < 2 ^ 64) × (enc32 v < 2 ^ 32) × (enc16 v < 2 ^ 16)
unfolding enc64 enc32 enc16
enc_bounds v =
    simp (reverse_order_64-swapped, reverse_order_32-swapped, reverse_order_16-swapped)
      (swapped-lt 8 v, swapped-lt 4 v, swapped-lt 2 v)
