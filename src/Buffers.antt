-- ===== src/Buffers.antt =====
-- SEBuf of lib/log_store/storage_engine_buffer.h: a block of memory by its length and pointer. The
-- heap is explicit, and what malloc answers is a parameter.
pub mod Ownership
pub mod Tests
use home_replication.Base.{
  ℕ, suc, ◌+◌, Bool, true, false, Option, none, some, List, [], ◌++◌, ◌==◌, leb, if◌then◌else◌,
  length, take, drop,
}
use home_replication.Base.Exec.{Result, ok, err, bad_access, Exec, pure, throw, ◌>>=◌, ◌>>◌}
use home_replication.Bytes.{Bytes}

-- The blocks by their addresses; no address from `next` on was given out. A null pointer is `none`.
pub record Heap : Type 0 where
  pub next : ℕ
  pub cell : ℕ → Option Bytes

abbrev pub Mem : Type 0 → Type 0
Mem A = Exec Heap A

abbrev pub update : (ℕ → Option Bytes) → ℕ → Option Bytes → ℕ → Option Bytes
update f p c q = if p == q then c else f q

pub record SeBuf : Type 0 where
  pub len : ℕ
  pub buf : Option ℕ

abbrev pub no_buf : SeBuf
no_buf = record { len = 0; buf = none }

-- A block that is live; any other access is a fault.
load : ℕ → Mem Bytes
load p h = elim (h.cell p) [ none ↦ (err bad_access, h) | some bs ↦ (ok bs, h) ]

-- `::free`, which does nothing with a null pointer and is a fault on a block that is not live.
free_block : Option ℕ → Mem (Unit {0})
unfolding load
free_block none h = (ok tt, h)
free_block (some p) h = (load p >> (λ h. (ok tt, record h { cell = update h.cell p none }))) h

-- The first `n` bytes of a pointer's block.
read_bytes : Option ℕ → ℕ → Mem Bytes
unfolding load
read_bytes none n = throw bad_access
read_bytes (some p) n = do
  bs ← load p
  if leb n (length bs) then pure (take n bs) else throw bad_access

write_bytes : Option ℕ → Bytes → Mem (Unit {0})
unfolding load
write_bytes none new = throw bad_access
write_bytes (some p) new = do
  bs ← load p
  if leb (length new) (length bs)
      then (λ h. (ok tt, record h { cell = update h.cell p (some (new ++ drop (length new) bs)) }))
      else throw bad_access

-- `memcpy(dst, src, n)`.
memcpy : Option ℕ → Option ℕ → ℕ → Mem (Unit {0})
unfolding read_bytes write_bytes
memcpy dst src n = do bs ← read_bytes src n; write_bytes dst bs

unfoldable pub clear : SeBuf → SeBuf
clear b = no_buf

-- `free()`, with the object as it is afterwards.
unfoldable pub free : SeBuf → Mem SeBuf
unfolding free_block clear
free b = do free_block b.buf; pure (clear b)

unfoldable pub empty : SeBuf → Bool
empty b = elim b.buf [ none ↦ true | some p ↦ false ]

-- `toString()`; a null pointer is accepted with the length 0.
unfoldable pub to_string : SeBuf → Mem Bytes
unfolding read_bytes
to_string b = if b.len == 0 then pure [] else read_bytes b.buf b.len

-- `moveTo(dst)`: the source and `dst` as they are afterwards.
unfoldable pub move_to : SeBuf → SeBuf × SeBuf
unfolding clear
move_to b = (clear b, b)

-- The end of a scope whose code gave the result, or threw: what the destructor does comes before it.
leave : {A : Type 0} → Mem (Unit {0}) → Result A → Mem A
leave destroy (ok a) = do destroy; pure a
leave destroy (err e) = do destroy; throw e

-- `AutoFree` frees the buffer at the end of its scope, of which `body` is the code, and when the
-- code throws.
unfoldable pub auto_free : {A : Type 0} → SeBuf → Mem A → Mem A
unfolding free leave
auto_free b body h = leave (do free b; pure tt) (body h).0 (body h).1

-- `malloc` gives a block with whatever bytes the memory held, or null.
module _ (malloc : Heap → ℕ → Option Bytes) where
  new_block : ℕ → Mem (Option ℕ)
  new_block n h = elim (malloc h n) [
    | none ↦ (ok none, h)
    | some bs ↦
        (ok (some h.next), record { next = suc h.next; cell = update h.cell h.next (some bs) })
  ]

  -- `SEBuf::alloc(len)`.
  unfoldable pub alloc : ℕ → Mem SeBuf
  unfolding new_block
  alloc n = if n == 0 then pure no_buf else do p ← new_block n; pure (record { len = n; buf = p })

  -- `copyTo(dst)`, with `dst` as it is afterwards.
  unfoldable pub copy_to : SeBuf → Mem SeBuf
  unfolding alloc memcpy
  copy_to b = do
    dst ← alloc b.len
    if b.len == 0 then pure tt else memcpy dst.buf b.buf b.len
    pure dst
