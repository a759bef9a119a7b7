-- ===== src/StateStore/Records.antt =====
-- The free pba records of HomeStateMachineStore against a list of pairs: a store number, which is
-- the lsn less 1, and the pbas.
use home_replication.Base.{
  ℕ, zero, suc, ◌+◌, ◌^◌, ◌≤◌, ◌<◌, ◌≡◌, ◌∙◌, refl, ap, List, [], ◌∷◌, All, arith, Option, some,
  ◌⊎◌,
}
use home_replication.Base.Int.{ℤ, pos}
use home_replication.Base.Exec.{ok}
use home_replication.Bytes.{Bytes}
use home_replication.HomeStore.{HomeLogStore, RecordLog}
use home_replication.HomeStore.Records.{Above, IsAscending, put, from}
use home_replication.StateStore.{
  HomeRsSuperblk, HomeStateMachineStore, Callback, to_store_lsn, add_free_pba_record,
  remove_free_pba_records_upto, flush_free_pba_records,
}
use home_replication.StateStore.Pbas.{IsPbaList, packed, encode_pbas-packed}

abbrev pub Pbas : Type 0
Pbas = List ℕ

-- The records as they stand in the store.
abbrev pub stored : List (ℕ × Pbas) → List (ℕ × Bytes)
stored [] = []
stored ((n, p) ∷ l) = (n, packed p) ∷ stored l

pub put-stored :
    (n : ℕ) (p : Pbas) (l : List (ℕ × Pbas)) → put n (packed p) (stored l) ≡ stored (put n p l)
unfolding put
put-stored n p [] = refl
put-stored n p ((k, q) ∷ l) = ground (arith, put-stored n p l)

pub from-stored : (n : ℕ) (l : List (ℕ × Pbas)) → from n (stored l) ≡ stored (from n l)
unfolding from
from-stored n [] = refl
from-stored n ((k, q) ∷ l) = ground (arith, from-stored n l)

Above-stored : (n : ℕ) (l : List (ℕ × Pbas)) → Above n (stored l) → Above n l
Above-stored n [] h = tt
Above-stored n ((k, q) ∷ l) (hk, h) = (hk, Above-stored n l h)

stored-IsAscending : (l : List (ℕ × Pbas)) → IsAscending (stored l) → IsAscending l
stored-IsAscending [] h = tt
stored-IsAscending ((k, q) ∷ l) (above, h) = (Above-stored k l above, stored-IsAscending l h)

-- A record that can be written: its lsn is far below 2 ^ 63.
abbrev pub IsFree : ℕ × Pbas → Type 0
IsFree r = (r.0 + 2 < 2 ^ 63) × IsPbaList r.1

All-put :
    (n : ℕ) (p : Pbas) (l : List (ℕ × Pbas)) → IsFree (n, p) → All IsFree l → All IsFree (put n p l)
unfolding put
All-put n p [] h hl = (h, tt)
All-put n p ((k, q) ∷ l) h (hk, hl) = ground (arith, All-put n p l h hl)

pub All-from : (n : ℕ) (l : List (ℕ × Pbas)) → All IsFree l → All IsFree (from n l)
unfolding from
All-from n [] h = tt
All-from n ((k, q) ∷ l) (hk, hl) = ground (arith, All-from n l hl)

pub Above-bounds : (a k : ℕ) (l : List (ℕ × Pbas)) → a ≤ k → Above k l → All (λ r. a ≤ r.0) l
Above-bounds a k [] h above = tt
Above-bounds a k ((j, p) ∷ l) h (hj, above) = (omega arith, Above-bounds a k l h above)

-- An object whose store is open.
abbrev pub opened :
    {S : Type 0}
    → HomeRsSuperblk
    → Option HomeRsSuperblk
    → HomeRsSuperblk
    → S
    → ℤ
    → HomeStateMachineStore S
opened sb disk mem s last = record {
  free_pba_store = some s;
  sb = sb;
  sb_on_disk = disk;
  sb_in_mem = mem;
  last_write_lsn = last;
}

-- The records given to the callback one by one, with their lsns.
abbrev pub deliver : {B : Type 0} → Callback B → List (ℕ × Pbas) → B → B
deliver cb [] acc = acc
deliver cb ((n, p) ∷ l) acc = deliver cb l (cb (pos (n + 1)) p acc)

module _ {S : Type 0} {st : HomeLogStore S} (law : RecordLog st) where
  pub record Represents (s : S) (l : List (ℕ × Pbas)) : Type 0 where
    pub shows : law.held s ≡ stored l
    pub free : All IsFree l

  pub ascending : (s : S) (l : List (ℕ × Pbas)) → Represents s l → IsAscending l
  ascending s l rep = stored-IsAscending l (rw rep.shows at (law.held_ascending s))

module _ {S : Type 0} (st : HomeLogStore S) (law : RecordLog st) (sb : HomeRsSuperblk)
    (disk : Option HomeRsSuperblk) (mem : HomeRsSuperblk) where
  -- On an open store that holds the free pba records `l`, `add_free_pba_record(n + 1, p)` writes a
  -- record with that lsn, in place of one that is there, keeps the others, and notes the lsn as the
  -- last written. The pbas fit 64 bits and their record 32 bits of size, and `n + 2` is below 2 ^
  -- 63.
  pub add_lem :
      (s : S) (l : List (ℕ × Pbas)) (last : ℤ) (n : ℕ) (p : Pbas)
      → Represents law s l
      → IsFree (n, p)
      → (s' : S) × (add_free_pba_record st (pos (n + 1)) p (opened sb disk mem s last)
          ≡ (ok tt, opened sb disk mem s' (pos (n + 1))))
        × Represents law s' (put n p l)
  unfolding add_free_pba_record
  add_lem s l last n p rep h =
      let number : to_store_lsn (pos (n + 1)) ≡ pos n = ground arith in
      (
        st.write_async s (pos n) (packed p),
        rw (encode_pbas-packed p h.1, number),
        record {
          shows =
              law.write_held s n (packed p)
              ∙ ap (λ l. put n (packed p) l) rep.shows
              ∙ put-stored n p l;
          free = All-put n p l h rep.free;
        },
      )

  -- On an open store that holds the free pba records `l`, `remove_free_pba_records_upto(n + 1)`
  -- removes those with an lsn of at most `n + 1`, keeps the others and resets the last written lsn
  -- to 0.
  pub remove_lem :
      (s : S) (l : List (ℕ × Pbas)) (last : ℤ) (n : ℕ)
      → Represents law s l
      → (s' : S) × (remove_free_pba_records_upto st (pos (n + 1)) (opened sb disk mem s last)
          ≡ (ok tt, opened sb disk mem s' (pos 0)))
        × Represents law s' (from (suc n) l)
  unfolding remove_free_pba_records_upto
  remove_lem s l last n rep =
      let number : to_store_lsn (pos (n + 1)) ≡ pos n = ground arith in
      (
        st.truncate s (pos n),
        rw number,
        record {
          shows =
              law.truncate_held s n
              ∙ ap (λ (t : List (ℕ × Bytes)). from (suc n) t) rep.shows
              ∙ from-stored (suc n) l;
          free = All-from (suc n) l rep.free;
        },
      )

  -- On an open store that holds the free pba records `l`, `flush_free_pba_records` changes none of
  -- them and makes the record number `m` durable, where its lsn `m + 1` is at most the last written
  -- lsn, or that is 0.
  pub flush_lem :
      (s : S) (l : List (ℕ × Pbas)) (last m : ℕ)
      → Represents law s l
      → (last ≡ 0) ⊎ (m + 1 ≤ last)
      → (s' : S) × (flush_free_pba_records st (opened sb disk mem s (pos last))
          ≡ (ok tt, opened sb disk mem s' (pos last)))
        × Represents law s' l
        × law.Durable s' m
  unfolding flush_free_pba_records
  flush_lem s l zero m rep h = (
    st.flush_sync s st.invalid_lsn,
    refl,
    record { shows = law.flush_held s st.invalid_lsn ∙ rep.shows; free = rep.free },
    law.flush_all s m,
  )
  flush_lem s l (suc last) m rep h =
      let number : to_store_lsn (pos (suc last)) ≡ pos last = ground arith in
      (
        st.flush_sync s (pos last),
        rw number (ground arith),
        record { shows = law.flush_held s (pos last) ∙ rep.shows; free = rep.free },
        law.flush_durable s last m (omega arith),
      )
