-- ===== src/Serializer.antt =====
-- SEBufSerializer of lib/log_store/storage_engine_buffer.h: a cursor over a buffer that writes and
-- reads integers in big-endian order and byte strings behind a 32-bit length.
pub mod Steps
pub mod Fields
pub mod RoundTrip
pub mod Safety
pub mod Room
pub mod Checked
pub mod Tests
use home_replication.Base.{
  ℕ, ◌+◌, ◌%◌, ◌^◌, Bool, true, false, ◌||◌, ◌++◌, Option, none, some, [], ltb, leb, if◌then◌else◌,
  length, take, drop, not,
}
use home_replication.Base.Int.{ℤ, to_int, to_uint}
use home_replication.Base.Exec.{
  Result, ok, err, bad_access, assertion, Exec, pure, throw, ◌>>=◌, ◌>>◌,
}
use home_replication.Bytes.{Bytes, le_bytes, le_value}
use home_replication.Endian.{enc64, dec64, enc32, dec32, enc16, dec16}

-- `mem` holds the `buf.len` bytes of the buffer that `buf` refers to.
pub record SeBufSerializer : Type 0 where
  pub mem : Bytes
  pub offset : ℕ
  pub err_happened : Bool

-- The constructor, over a buffer with the given contents.
abbrev pub serializer : Bytes → SeBufSerializer
serializer mem = record { mem = mem; offset = 0; err_happened = false }

abbrev pub Ser : Type 0 → Type 0
Ser A = Exec SeBufSerializer A

-- `isValid(len)`; the sum is a size_t.
pub is_valid : ℕ → Ser Bool
is_valid len s =
    if s.err_happened || ltb (length s.mem) ((len + s.offset) % 2 ^ 64)
    then (ok false, record s { err_happened = true })
    else (ok true, s)

pub is_ok : SeBufSerializer → Bool
is_ok s = not s.err_happened

-- `pos(_pos)`, which asserts that the position lies in the buffer.
pub seek : ℕ → Ser (Unit {0})
seek p s = if leb p (length s.mem) then (ok tt, record s { offset = p }) else (err assertion, s)

pub pos : Ser ℕ
pos s = (ok s.offset, s)

pub clear_error : Ser (Unit {0})
clear_error s = (ok tt, record s { err_happened = false })

-- `bs` over the bytes of `m` from `p` on.
abbrev pub overwrite : Bytes → ℕ → Bytes → Bytes
overwrite m p bs = take p m ++ (bs ++ drop (p + length bs) m)

-- `memcpy(data(), src, n)` and `memcpy(dst, data(), n)`: outside the buffer they are faults.
memcpy_to : Bytes → Ser (Unit {0})
memcpy_to bs s =
    if leb (s.offset + length bs) (length s.mem)
    then (ok tt, record s { mem = overwrite s.mem s.offset bs })
    else (err bad_access, s)

memcpy_from : ℕ → Ser Bytes
memcpy_from n s =
    if leb (s.offset + n) (length s.mem)
    then (ok (take n (drop s.offset s.mem)), s)
    else (err bad_access, s)

-- `pos(pos() + n)`.
advance : ℕ → Ser (Unit {0})
unfolding pos seek
advance n = do p ← pos; seek (p + n)

-- The common body of the put functions: `n` bytes of a word that is already encoded.
pub put_word : ℕ → ℕ → Ser (Unit {0})
unfolding is_valid memcpy_to advance
put_word n word = do
  valid ← is_valid n
  if not valid then pure tt else do memcpy_to (le_bytes n word); advance n

pub put_u64 : ℕ → Ser (Unit {0})
put_u64 val = put_word 8 (enc64 val)

pub put_u32 : ℕ → Ser (Unit {0})
put_u32 val = put_word 4 (enc32 val)

pub put_u16 : ℕ → Ser (Unit {0})
put_u16 val = put_word 2 (enc16 val)

pub put_u8 : ℕ → Ser (Unit {0})
put_u8 val = put_word 1 val

pub put_i64 : ℤ → Ser (Unit {0})
put_i64 val = put_word 8 (enc64 (to_uint 64 val))

pub put_i32 : ℤ → Ser (Unit {0})
put_i32 val = put_word 4 (enc32 (to_uint 32 val))

pub put_i16 : ℤ → Ser (Unit {0})
put_i16 val = put_word 2 (enc16 (to_uint 16 val))

-- Unchecked, as in the source.
pub put_raw : Bytes → Ser (Unit {0})
unfolding memcpy_to advance
put_raw src = do memcpy_to src; advance (length src)

-- `put(len, src)`: the length is cut to 32 bits by the call of `putU32`.
pub put : Bytes → Ser (Unit {0})
unfolding is_valid
put src = do
  put_u32 (length src % 2 ^ 32)
  valid ← is_valid (length src)
  if not valid then pure tt else put_raw src

-- The common body of the get functions: the word of `n` bytes at the cursor, or 0 on an error.
pub get_word : ℕ → (ℕ → ℕ) → Ser ℕ
unfolding is_valid memcpy_from advance
get_word n decode = do
  valid ← is_valid n
  if not valid then pure 0 else do bs ← memcpy_from n; advance n; pure (decode (le_value bs))

pub get_u64 : Ser ℕ
get_u64 = get_word 8 dec64

pub get_u32 : Ser ℕ
get_u32 = get_word 4 dec32

pub get_u16 : Ser ℕ
get_u16 = get_word 2 dec16

pub get_u8 : Ser ℕ
get_u8 = get_word 1 (λ v. v)

pub get_i64 : Ser ℤ
get_i64 = do u ← get_word 8 dec64; pure (to_int 64 u)

pub get_i32 : Ser ℤ
get_i32 = do u ← get_word 4 dec32; pure (to_int 32 u)

pub get_i16 : Ser ℤ
get_i16 = do u ← get_word 2 dec16; pure (to_int 16 u)

-- `getRaw(len)`: the pointer that it returns is read as the `len` bytes behind it.
pub get_raw : ℕ → Ser Bytes
unfolding memcpy_from advance
get_raw n = do bs ← memcpy_from n; advance n; pure bs

-- `get(len)`: `none` is the null pointer.
pub get : Ser (Option Bytes)
unfolding is_valid
get = do
  len ← get_u32
  valid ← is_valid len
  if not valid then pure none else do bs ← get_raw len; pure (some bs)

-- `putString` and `getString`; a null pointer reads as the empty string.
pub put_string : Bytes → Ser (Unit {0})
put_string str = put str

or_empty : Option Bytes → Bytes
or_empty none = []
or_empty (some bs) = bs

pub get_string : Ser Bytes
unfolding or_empty
get_string = do found ← get; pure (or_empty found)

-- `putSEBuf` and `getSEBuf`: an SEBuf is its length and the bytes that it refers to, if any.
pub put_se_buf : Bytes → Ser (Unit {0})
put_se_buf buf = put buf

pub get_se_buf : Ser (ℕ × Option Bytes)
unfolding is_valid
get_se_buf = do
  len ← get_u32
  valid ← is_valid len
  if not valid then pure (len, none) else do bs ← get_raw len; pure (len, some bs)
