-- ===== src/Endian/Hosts.antt =====
-- `_enc` and `_dec` on both kinds of hosts.
use mathlib.Core.List.{reverse, reverse-reverse}
use home_replication.Base.{ℕ, ◌^◌, ◌<◌, ◌≡◌, refl, arith, ap, sym, ◌∙◌}
use home_replication.Bytes.{Bytes, le_bytes, le_value, le_value-le_bytes}
use home_replication.Endian.{Host, little, big, enc, dec}
use home_replication.Endian.Order.{codec_64, codec_32, codec_16, enc_bounds}

-- The `size` bytes of a number in the host's memory.
abbrev pub in_memory : Host → ℕ → ℕ → Bytes
in_memory little size v = le_bytes size v
in_memory big size v = reverse (le_bytes size v)

-- The sizes of the integers that are encoded.
pub data Width : Type 0 where
  one : Width
  two : Width
  four : Width
  eight : Width

abbrev pub size_of : Width → ℕ
size_of one = 1
size_of two = 2
size_of four = 4
size_of eight = 8

-- The number that the host reads there.
abbrev pub from_memory : Host → Bytes → ℕ
from_memory little bs = le_value bs
from_memory big bs = le_value (reverse bs)

-- The bytes of an encoded number stand highest first.
enc_bytes :
    (host : Host) (w : Width) (v : ℕ)
    → v < 256 ^ size_of w
    → in_memory host (size_of w) (enc host (size_of w) v) ≡ reverse (le_bytes (size_of w) v)
unfolding enc
enc_bytes big w v h = refl
enc_bytes little one v h = unfold le_bytes in refl
enc_bytes little two v h = (codec_16 v (omega arith)).1
enc_bytes little four v h = (codec_32 v (omega arith)).1
enc_bytes little eight v h = (codec_64 v (omega arith)).1

dec-enc :
    (w : Width) (v : ℕ)
    → v < 256 ^ size_of w
    → dec little (size_of w) (enc little (size_of w) v) ≡ v
unfolding enc dec
dec-enc one v h = refl
dec-enc two v h = (codec_16 v (omega arith)).0
dec-enc four v h = (codec_32 v (omega arith)).0
dec-enc eight v h = (codec_64 v (omega arith)).0

enc_lt : (w : Width) (v : ℕ) → v < 256 ^ size_of w → enc little (size_of w) v < 256 ^ size_of w
unfolding enc
enc_lt one v h = h
enc_lt two v h = omega (arith, (enc_bounds v).2)
enc_lt four v h = omega (arith, (enc_bounds v).1)
enc_lt eight v h = omega (arith, (enc_bounds v).0)

read_back :
    (reader : Host) (w : Width) (v : ℕ)
    → v < 256 ^ size_of w
    → dec reader (size_of w) (from_memory reader (reverse (le_bytes (size_of w) v))) ≡ v
unfolding dec
read_back big w v h =
    ap le_value (reverse-reverse (le_bytes (size_of w) v)) ∙ le_value-le_bytes (size_of w) v h
read_back little w v h =
    ap (λ (bs : Bytes). dec little (size_of w) (le_value bs)) (sym (enc_bytes little w v h))
    ∙ ap (λ (u : ℕ). dec little (size_of w) u)
        (le_value-le_bytes (size_of w) (enc little (size_of w) v) (enc_lt w v h))
    ∙ dec-enc w v h

-- A number of 1, 2, 4 or 8 bytes that a host of either byte order writes into memory through `_enc`
-- is the number that a host of either byte order gets by `_dec` from those bytes.
pub portable :
    (writer reader : Host) (w : Width) (v : ℕ)
    → v < 256 ^ size_of w
    → dec reader
        (size_of w)
        (from_memory reader (in_memory writer (size_of w) (enc writer (size_of w) v)))
      ≡ v
portable writer reader w v h =
    ap (λ (bs : Bytes). dec reader (size_of w) (from_memory reader bs)) (enc_bytes writer w v h)
    ∙ read_back reader w v h
