-- ===== src/ReplicaSet/Journal.antt =====
-- The journal entry that ReplicaSet::write makes.
use home_replication.Base.{
  ℕ, ◌+◌, ◌*◌, ◌%◌, ◌^◌, ◌≤◌, ◌<◌, ◌≡◌, ◌∙◌, ap, sym, List, [], ◌∷◌, ◌++◌, arith, length, take,
  drop,
}
use home_replication.Base.Exec.{Result, ok}
use home_replication.Base.Int.{pos}
use home_replication.Bytes.{Bytes, le_bytes, le_value, length-le_bytes, le_value-le_bytes}
use home_replication.Serializer.{overwrite}
use home_replication.Serializer.Steps.{slice, length-overwrite}
use home_replication.ReplicaSet.Writes.{
  apply, IsWithin, IsBehind, length-apply, slice-apply, slice-apply_within, drop-apply,
}
use home_replication.ReplicaSet.{
  ReplReq, total_size, data_code, entry_of, poke, fill_entry, finish, write,
}

poke_fits :
    (p : ℕ) (bs m : Bytes) → p + length bs ≤ length m → poke p bs m ≡ (ok tt, overwrite m p bs)
unfolding poke
poke_fits p bs m h = ground arith

module _ (m : Bytes) (pbas : List ℕ) (header key : Bytes)
    (size : length m ≡ 32 + length pbas * 8 + length header + length key) where
  abbrev fixed_fields : List (ℕ × Bytes)
  fixed_fields =
      (4, le_bytes 2 data_code)
      ∷ (6, le_bytes 2 (length pbas % 2 ^ 16))
      ∷ (24, le_bytes 4 (length header))
      ∷ (28, le_bytes 4 (length key))
      ∷ (32, header)
      ∷ (32 + length header, key)
      ∷ []

  abbrev filled : Bytes
  filled = apply fixed_fields m

  two : (v : ℕ) → length (le_bytes 2 v) ≡ 2
  two v = length-le_bytes 2 v

  four : (v : ℕ) → length (le_bytes 4 v) ≡ 4
  four v = length-le_bytes 4 v

  fixed_fields-IsWithin : IsWithin (length m) fixed_fields
  fixed_fields-IsWithin = (
    omega (arith, two data_code),
    (
      omega (arith, two (length pbas % 2 ^ 16)),
      (
        omega (arith, four (length header)),
        (omega (arith, four (length key)), (omega arith, (omega arith, tt))),
      ),
    ),
  )

  length-filled : length filled ≡ length m
  length-filled = length-apply fixed_fields m fixed_fields-IsWithin

  fill_entry-filled : fill_entry pbas header key m ≡ (ok tt, filled)
  unfolding fill_entry
  fill_entry-filled =
      let w1 : Bytes = le_bytes 2 data_code in
      let w2 : Bytes = le_bytes 2 (length pbas % 2 ^ 16) in
      let w3 : Bytes = le_bytes 4 (length header) in
      let w4 : Bytes = le_bytes 4 (length key) in
      let m1 : Bytes = overwrite m 4 w1 in
      let m2 : Bytes = overwrite m1 6 w2 in
      let m3 : Bytes = overwrite m2 24 w3 in
      let m4 : Bytes = overwrite m3 28 w4 in
      let m5 : Bytes = overwrite m4 32 header in
      let t1 = two data_code in
      let t2 = two (length pbas % 2 ^ 16) in
      let t3 = four (length header) in
      let t4 = four (length key) in
      let l1 : length m1 ≡ length m = length-overwrite m 4 w1 (omega arith) in
      let l2 : length m2 ≡ length m = length-overwrite m1 6 w2 (omega arith) ∙ l1 in
      let l3 : length m3 ≡ length m = length-overwrite m2 24 w3 (omega arith) ∙ l2 in
      let l4 : length m4 ≡ length m = length-overwrite m3 28 w4 (omega arith) ∙ l3 in
      let l5 : length m5 ≡ length m = length-overwrite m4 32 header (omega arith) ∙ l4 in
      rw (
        poke_fits 4 w1 m (omega arith),
        poke_fits 6 w2 m1 (omega arith),
        poke_fits 24 w3 m2 (omega arith),
        poke_fits 28 w4 m3 (omega arith),
        poke_fits 32 header m4 (omega arith),
        poke_fits (32 + length header) key m5 (omega arith),
      )

  -- A word of the fixed fields, at its place.
  word_of :
      (before : List (ℕ × Bytes)) (p n v : ℕ) (ws : List (ℕ × Bytes))
      → IsWithin (length m) (before ++ ((p, le_bytes n v) ∷ ws))
      → IsBehind (p + n) ws
      → v < 256 ^ n
      → le_value (slice (apply (before ++ ((p, le_bytes n v) ∷ ws)) m) p n) ≡ v
  word_of before p n v ws h b fits =
      let size_of : length (le_bytes n v) ≡ n = length-le_bytes n v in
      ap (λ (k : ℕ). le_value (slice (apply (before ++ ((p, le_bytes n v) ∷ ws)) m) p k))
        (sym size_of)
      ∙ ap le_value (slice-apply_within before p (le_bytes n v) ws m h (rw size_of b))
      ∙ le_value-le_bytes n v fits

abbrev pub entry_size : List ℕ → Bytes → Bytes → ℕ
entry_size pbas header key = 32 + length pbas * 8 + length header + length key

module _ (alloc : ℕ → Result Bytes) (memory : Bytes) (pbas : List ℕ) (header key : Bytes)
    (value : List Bytes) (user_ctx : ℕ) (allocated : alloc (entry_size pbas header key) ≡ ok memory)
    (sized : length memory ≡ entry_size pbas header key) where
  abbrev request : ReplReq
  request = record { header = header; key = key; value = value; user_ctx = user_ctx; lsn = pos 0 }

  abbrev entry : Bytes
  entry = filled memory pbas header key sized

  write-entry : write alloc pbas header key value user_ctx ≡ ok (request, entry)
  unfolding write
  write-entry =
      rw (write, allocated) (ap (finish request) (fill_entry-filled memory pbas header key sized))

  -- Where the allocation gives a buffer of the size of the entry, with fewer than 2 ^ 16 pbas and
  -- an entry below 2 ^ 32 bytes, `write` makes a journal entry of exactly its `total_size` with the
  -- code DATA, the number of the pbas, and the header and the key where the size fields say.
  pub journal_lem :
      length pbas < 2 ^ 16
      → entry_size pbas header key < 2 ^ 32
      → (b : Bytes) × (write alloc pbas header key value user_ctx ≡ ok (request, b))
        × (length b ≡ total_size (entry_of b))
        × ((entry_of b).code ≡ data_code)
        × ((entry_of b).n_pbas ≡ length pbas)
        × (slice b 32 (entry_of b).user_header_size ≡ header)
        × (slice b (32 + (entry_of b).user_header_size) (entry_of b).key_size ≡ key)
  journal_lem few fits =
      let m : Bytes = memory in
      let size = sized in
      let h = fixed_fields-IsWithin m pbas header key size in
      let b : Bytes = entry in
      let f1 : (ℕ × Bytes) = (4, le_bytes 2 data_code) in
      let f2 : (ℕ × Bytes) = (6, le_bytes 2 (length pbas % 2 ^ 16)) in
      let f3 : (ℕ × Bytes) = (24, le_bytes 4 (length header)) in
      let f4 : (ℕ × Bytes) = (28, le_bytes 4 (length key)) in
      let f5 : (ℕ × Bytes) = (32, header) in
      let f6 : (ℕ × Bytes) = (32 + length header, key) in
      let word = word_of m pbas header key size in
      let code : (entry_of b).code ≡ data_code =
        word [] 4 2 data_code (f2 ∷ f3 ∷ f4 ∷ f5 ∷ f6 ∷ []) h
          (omega arith, (omega arith, (omega arith, (omega arith, (omega arith, tt)))))
          (omega arith) in
      let count : (entry_of b).n_pbas ≡ length pbas =
        word (f1 ∷ []) 6 2 (length pbas % 2 ^ 16) (f3 ∷ f4 ∷ f5 ∷ f6 ∷ []) h
          (omega arith, (omega arith, (omega arith, (omega arith, tt)))) (omega arith)
        ∙ omega arith in
      let header_size : (entry_of b).user_header_size ≡ length header =
        word (f1 ∷ f2 ∷ []) 24 4 (length header) (f4 ∷ f5 ∷ f6 ∷ []) h
          (omega arith, (omega arith, (omega arith, tt))) (omega arith) in
      let size_of_key : (entry_of b).key_size ≡ length key =
        word (f1 ∷ f2 ∷ f3 ∷ []) 28 4 (length key) (f5 ∷ f6 ∷ []) h (omega arith, (omega arith, tt))
          (omega arith) in
      let header_at : slice b 32 (length header) ≡ header =
        slice-apply_within (f1 ∷ f2 ∷ f3 ∷ f4 ∷ []) 32 header (f6 ∷ []) m h (omega arith, tt) in
      let key_at : slice b (32 + length header) (length key) ≡ key =
        slice-apply_within (f1 ∷ f2 ∷ f3 ∷ f4 ∷ f5 ∷ []) (32 + length header) key [] m h tt in
      (
        b,
        write-entry,
        length-filled m pbas header key size
            ∙ size
            ∙ omega (arith, count, header_size, size_of_key),
        code,
        count,
        ap (λ (n : ℕ). slice b 32 n) header_size ∙ header_at,
        rw (header_size, size_of_key) key_at,
      )

  -- Where the allocation gives a buffer of the size of the entry, `write` makes a journal entry in
  -- which the two version numbers, the replica id and the bytes of the pbas are what the memory
  -- held before.
  pub journal_unset :
      (b : Bytes) × (write alloc pbas header key value user_ctx ≡ ok (request, b))
      × (take 4 b ≡ take 4 memory)
      × (slice b 8 16 ≡ slice memory 8 16)
      × (drop (32 + length header + length key) b ≡ drop (32 + length header + length key) memory)
  journal_unset =
      let m : Bytes = memory in
      let size = sized in
      let (h1, (h2, h)) = fixed_fields-IsWithin m pbas header key size in
      let f1 : (ℕ × Bytes) = (4, le_bytes 2 data_code) in
      let f2 : (ℕ × Bytes) = (6, le_bytes 2 (length pbas % 2 ^ 16)) in
      let rest : List (ℕ × Bytes) =
        (24, le_bytes 4 (length header))
        ∷ (28, le_bytes 4 (length key))
        ∷ (32, header)
        ∷ (32 + length header, key)
        ∷ [] in
      let t1 = length-le_bytes 2 data_code in
      let t2 = length-le_bytes 2 (length pbas % 2 ^ 16) in
      let t3 = length-le_bytes 4 (length header) in
      let t4 = length-le_bytes 4 (length key) in
      let m2 : Bytes = apply (f1 ∷ f2 ∷ []) m in
      let same : length m2 ≡ length m = length-apply (f1 ∷ f2 ∷ []) m (h1, (h2, tt)) in
      (
        entry,
        write-entry,
        slice-apply (f1 ∷ f2 ∷ rest) m 0 4 (h1, (h2, h))
            (
              omega arith,
              (omega arith, (omega arith, (omega arith, (omega arith, (omega arith, tt))))),
            ),
        slice-apply rest m2 8 16 (rw same h)
              (omega arith, (omega arith, (omega arith, (omega arith, tt))))
            ∙ ap (λ (t : Bytes). take 16 t)
                (drop-apply (f1 ∷ f2 ∷ []) m 8 (h1, (h2, tt)) (omega arith, (omega arith, tt))),
        drop-apply (f1 ∷ f2 ∷ rest) m (32 + length header + length key) (h1, (h2, h))
            (
              omega arith,
              (omega arith, (omega arith, (omega arith, (omega arith, (omega arith, tt))))),
            ),
      )
