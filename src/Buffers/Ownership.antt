-- ===== src/Buffers/Ownership.antt =====
-- Which blocks the operations of SEBuf share, and which they free.
use home_replication.Base.{
  ℕ, suc, ◌<◌, ◌≡◌, ◌≢◌, refl, ap, false, Option, none, some, [], ◌++◌, length, take, drop, arith,
  take-length, drop-length, append-nil, ◌==◌, ◌≤◌, ◌∙◌,
}
use home_replication.Base.Exec.{ok, err, bad_access}
use home_replication.Bytes.{Bytes}
use home_replication.Buffers.{
  Heap, SeBuf, no_buf, update, free, to_string, move_to, copy_to, read_bytes, write_bytes,
  new_block,
}

-- The buffer owns a live block with the bytes.
pub record Owns (h : Heap) (b : SeBuf) (bs : Bytes) : Type 0 where
  pub address : ℕ
  pub points : b.buf ≡ some address
  pub live : h.cell address ≡ some bs
  pub known : address < h.next
  pub whole : b.len ≡ length bs
  pub filled : 0 < b.len

reads_owned : (h : Heap) (b : SeBuf) (bs : Bytes) → Owns h b bs → to_string b h ≡ (ok bs, h)
unfolding to_string
reads_owned h b bs own = ground (arith, take-length (length bs) bs, own.live, own.points)

frees_owned :
    (h : Heap) (b : SeBuf) (bs : Bytes) (own : Owns h b bs)
    → free b h ≡ (ok no_buf, record h { cell = update h.cell own.address none })
unfolding free
frees_owned h b bs own = ground (arith, own.live, own.points)

frees_dead :
    (h : Heap) (b : SeBuf) (p : ℕ)
    → b.buf ≡ some p
    → h.cell p ≡ none
    → free b h ≡ (err bad_access, h)
unfolding free
frees_dead h b p points dead = ground arith

-- A block at another address is as it was.
Owns-update :
    (h : Heap) (b : SeBuf) (bs : Bytes) (p : ℕ) (own : Owns h b bs)
    → p ≢ own.address
    → Owns (record h { cell = update h.cell p none }) b bs
Owns-update h b bs p own other = record {
  address = own.address;
  points = own.points;
  live = ground (arith, own.live);
  known = own.known;
  whole = own.whole;
  filled = own.filled;
}

free_lem :
    (h : Heap) (b : SeBuf) (bs : Bytes)
    → Owns h b bs
    → (h' : Heap) × (free b h ≡ (ok no_buf, h'))
      × (free no_buf h' ≡ (ok no_buf, h'))
      × (free b h' ≡ (err bad_access, h'))
unfolding free
free_lem h b bs own =
    let h' : Heap = record h { cell = update h.cell own.address none } in
    (h', frees_owned h b bs own, refl, frees_dead h' b own.address own.points (ground arith))

-- After `moveTo` from a buffer that owns a live block with the bytes `bs`, at least one, the
-- destination holds `bs` and the source is empty; when the destination is freed, freeing the source
-- changes nothing more.
move_lem :
    (h : Heap) (b : SeBuf) (bs : Bytes)
    → Owns h b bs
    → (h' : Heap) × (to_string (move_to b).1 h ≡ (ok bs, h))
      × (to_string (move_to b).0 h ≡ (ok [], h))
      × (free (move_to b).1 h ≡ (ok no_buf, h'))
      × (free (move_to b).0 h' ≡ (ok no_buf, h'))
unfolding free move_to to_string
move_lem h b bs own = (
  record h { cell = update h.cell own.address none },
  reads_owned h b bs own,
  refl,
  frees_owned h b bs own,
  refl,
)

read_bytes-live :
    (h : Heap) (p n : ℕ) (bs : Bytes)
    → h.cell p ≡ some bs
    → n ≤ length bs
    → read_bytes (some p) n h ≡ (ok (take n bs), h)
unfolding read_bytes
read_bytes-live h p n bs live fits = ground arith

write_bytes-live :
    (h : Heap) (p : ℕ) (new bs : Bytes)
    → h.cell p ≡ some bs
    → length new ≤ length bs
    → write_bytes (some p) new h
      ≡ (ok tt, record h { cell = update h.cell p (some (new ++ drop (length new) bs)) })
unfolding write_bytes
write_bytes-live h p new bs live fits = ground arith

-- The heap with one more block.
abbrev given_heap : Heap → Bytes → Heap
given_heap h fresh = record { next = suc h.next; cell = update h.cell h.next (some fresh) }

module _ (malloc : Heap → ℕ → Option Bytes) where
  new_block-given :
      (h : Heap) (n : ℕ) (fresh : Bytes)
      → malloc h n ≡ some fresh
      → new_block malloc n h ≡ (ok (some h.next), given_heap h fresh)
  unfolding new_block
  new_block-given h n fresh given = ground arith

  copied :
      (h : Heap) (b : SeBuf) (bs fresh : Bytes) (own : Owns h b bs)
      → malloc h b.len ≡ some fresh
      → length fresh ≡ b.len
      → copy_to malloc b h ≡ (
        ok (record { len = b.len; buf = some h.next }),
        record {
          next = suc h.next;
          cell = update (update h.cell h.next (some fresh)) h.next (some bs);
        },
      )
  unfolding copy_to
  copied h b bs fresh own given size =
      let all : take b.len bs ≡ bs = take-length b.len bs (omega (arith, own.whole)) in
      let none_left : bs ++ drop (length bs) fresh ≡ bs =
        ap (λ (l : Bytes). bs ++ l) (drop-length (length bs) fresh (omega (arith, own.whole)))
        ∙ append-nil bs in
      let positive : (b.len == 0) ≡ false = ground (arith, own.filled) in
      rw (
        positive,
        new_block-given h b.len fresh given,
        own.points,
        read_bytes-live (given_heap h fresh) own.address b.len bs (ground (arith, own.live))
            (omega (arith, own.whole)),
        all,
        write_bytes-live (given_heap h fresh) h.next bs fresh (ground arith)
            (omega (arith, own.whole)),
        none_left,
      )

  -- Take a buffer that owns a live block with the bytes `bs`, at least one, and a malloc that
  -- answers with a block of that size. After `copyTo` the copy and the source both hold `bs`; when
  -- either is freed, the other still holds them.
  pub copy_lem :
      (h : Heap) (b : SeBuf) (bs fresh : Bytes)
      → Owns h b bs
      → malloc h b.len ≡ some fresh
      → length fresh ≡ b.len
      → (h' : Heap) × (dst : SeBuf) × (k : Heap) × (k' : Heap) × (copy_to malloc b h ≡ (ok dst, h'))
        × (to_string dst h' ≡ (ok bs, h'))
        × (to_string b h' ≡ (ok bs, h'))
        × (free dst h' ≡ (ok no_buf, k))
        × (to_string b k ≡ (ok bs, k))
        × (free b h' ≡ (ok no_buf, k'))
        × (to_string dst k' ≡ (ok bs, k'))
  copy_lem h b bs fresh own given size =
      let dst : SeBuf = record { len = b.len; buf = some h.next } in
      let h' : Heap = record {
        next = suc h.next;
        cell = update (update h.cell h.next (some fresh)) h.next (some bs);
      } in
      let new : Owns h' dst bs = record {
        address = h.next;
        points = refl;
        live = ground arith;
        known = omega arith;
        whole = own.whole;
        filled = own.filled;
      } in
      let old : Owns h' b bs = record {
        address = own.address;
        points = own.points;
        live = ground (arith, own.live);
        known = omega (arith, own.known);
        whole = own.whole;
        filled = own.filled;
      } in
      let k : Heap = record h' { cell = update h'.cell h.next none } in
      let k' : Heap = record h' { cell = update h'.cell own.address none } in
      let apart : h.next ≢ own.address = λ (e : h.next ≡ own.address). omega (arith, own.known) in
      let apart' : own.address ≢ h.next = λ (e : own.address ≡ h.next). omega (arith, own.known) in
      (
        h',
        dst,
        k,
        k',
        copied h b bs fresh own given size,
        reads_owned h' dst bs new,
        reads_owned h' b bs old,
        frees_owned h' dst bs new,
        reads_owned k b bs (Owns-update h' b bs h.next old apart),
        frees_owned h' b bs old,
        reads_owned k' dst bs (Owns-update h' dst bs own.address new apart'),
      )

  -- Where malloc answers null, `copyTo` of a buffer that owns a live block with at least one byte
  -- writes through the null pointer.
  pub copy_null :
      (h : Heap) (b : SeBuf) (bs : Bytes)
      → Owns h b bs
      → malloc h b.len ≡ none
      → copy_to malloc b h ≡ (err bad_access, h)
  unfolding copy_to
  copy_null h b bs own given = ground (arith, own.live, own.points)
