-- ===== src/Buffers/Tests.antt =====
-- SEBuf with one block of two bytes, at a malloc that gives zeros below 100 bytes.
use home_replication.Base.{
  ℕ, ◌≡◌, refl, Option, none, some, [], ◌∷◌, arith, ltb, if◌then◌else◌, replicate, ◌==◌,
}
use home_replication.Base.Exec.{ok, err, bad_access}
use home_replication.Bytes.{Bytes}
use home_replication.Buffers.{Heap, SeBuf, no_buf, free, to_string, copy_to}
use home_replication.Buffers.Ownership.{Owns, copy_lem, copy_null}

abbrev malloc : Heap → ℕ → Option Bytes
malloc h n = if ltb n 100 then some (replicate n 0) else none

abbrev null_malloc : Heap → ℕ → Option Bytes
null_malloc h n = none

abbrev heap : Heap
heap = record { next = 1; cell = λ p. if p == 0 then some (5 ∷ 6 ∷ []) else none }

abbrev buf : SeBuf
buf = record { len = 2; buf = some 0 }

buf-Owns : Owns heap buf (5 ∷ 6 ∷ [])
buf-Owns = record {
  address = 0;
  points = refl;
  live = refl;
  known = omega arith;
  whole = refl;
  filled = omega arith;
}

copy_lem_example :
    (h : Heap) × (dst : SeBuf) × (k : Heap) × (k' : Heap) × (copy_to malloc buf heap ≡ (ok dst, h))
    × (to_string dst h ≡ (ok (5 ∷ 6 ∷ []), h))
    × (to_string buf h ≡ (ok (5 ∷ 6 ∷ []), h))
    × (free dst h ≡ (ok no_buf, k))
    × (to_string buf k ≡ (ok (5 ∷ 6 ∷ []), k))
    × (free buf h ≡ (ok no_buf, k'))
    × (to_string dst k' ≡ (ok (5 ∷ 6 ∷ []), k'))
copy_lem_example = copy_lem malloc heap buf (5 ∷ 6 ∷ []) (0 ∷ 0 ∷ []) buf-Owns refl refl

copy_null_example : copy_to null_malloc buf heap ≡ (err bad_access, heap)
copy_null_example = copy_null null_malloc heap buf (5 ∷ 6 ∷ []) buf-Owns refl
