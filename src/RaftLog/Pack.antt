-- ===== src/RaftLog/Pack.antt =====
-- `pack` and `apply_pack` of HomeRaftLogStore: a range of the log in one nuraft::buffer, and back.
pub mod Durable
pub mod Exact
pub mod Layout
pub mod Room
pub mod Rounds
pub mod Tests
pub mod Transfer
pub mod Unpack
use Prim.Native.Nat.{max}
use home_replication.Base.{
  ℕ, zero, suc, ◌+◌, ◌-◌, ◌*◌, ◌%◌, ◌^◌, Bool, true, false, ltb, if◌then◌else◌, length,
}
use home_replication.Base.Int.{ℤ, pos, negsuc, pos_part, to_int, to_uint, ◌+ℤ◌, ◌-ℤ◌, ltb_ℤ}
use home_replication.Base.Exec.{
  Result, ok, err, out_of_rounds, Exec, pure, throw, lift, ◌>>=◌, ◌>>◌,
}
use home_replication.Bytes.{Bytes}
use home_replication.HomeStore.{HomeLogStore, Visitor}
use home_replication.Nuraft.{LogEntry, Nuraft}
use home_replication.RaftLog.{HomeRaftLogStore, to_store_lsn, io_blob}
use home_replication.RaftLog

abbrev estimated_record_size : ℕ
estimated_record_size = 128

module _ {S : Type 0} (st : HomeLogStore S) (nu : Nuraft) where
  open nu use {Buffer}

  -- What the lambda of `pack` captures by reference: `out_buf` and `remain_cnt`.
  pub record Packing : Type 0 where
    pub out_buf : Buffer
    pub remain_cnt : ℤ

  -- Room for a record of `n` bytes, as `pack` makes it.
  unfoldable pub make_room : Buffer → ℕ → Result Buffer
  make_room out_buf n =
      let avail_size : ℕ = nu.size out_buf - nu.pos out_buf in
      if ltb avail_size n
      then nu.expand out_buf (avail_size + max (nu.size out_buf * 2) n)
      else ok out_buf

  -- The lambda of `pack`; what it throws ends the walk.
  unfoldable pub pack_record : Visitor (Result Packing)
  pack_record cur entry (err e) = (false, err e)
  pack_record cur entry (ok p) =
      let remain : ℤ = p.remain_cnt -ℤ pos 1 in
      let more : Bool = ltb_ℤ (pos 0) remain in
      if ltb_ℤ (pos 0) p.remain_cnt
      then (elim (make_room p.out_buf (length entry)) [
        | err e ↦ (false, err e)
        | ok room ↦ (elim (nu.put_bytes room entry) [
          | err e ↦ (false, err e)
          | ok out_buf ↦ (more, ok (record { out_buf = out_buf; remain_cnt = remain }))
        ])
      ])
      else (more, ok (record { out_buf = p.out_buf; remain_cnt = remain }))

  abbrev out_of : Result Packing → Result Buffer
  out_of (ok p) = ok p.out_buf
  out_of (err e) = err e

  -- The sizes are size_t; `cnt` is an int32_t.
  unfoldable pub pack : ℕ → ℤ → RaftLog.Raft st nu Buffer
  pack index cnt = do
    let estimated_size = (to_uint 64 cnt * estimated_record_size % 2 ^ 64 + 4) % 2 ^ 64
    empty ← lift (nu.alloc estimated_size)
    out_buf ← lift (nu.put_int empty (to_uint 32 cnt))
    RaftLog.query st nu (λ s. out_of (
        st.foreach (Result Packing) s (to_store_lsn index) pack_record
          (ok (record { out_buf = out_buf; remain_cnt = cnt }))))

  -- The loop over the records of the pack.
  unfoldable pub unpack : ℕ → Buffer → RaftLog.Raft st nu Buffer
  unpack zero pack r = (ok pack, r)
  unpack (suc n) pack r =
      (do
        (entry, rest) ← lift (nu.get_bytes pack)
        RaftLog.update st nu (λ s. st.append_async s (io_blob entry))
        unpack n rest)
        r

  -- `append` is virtual: the object's class gives it.
  module _ (own_append : LogEntry → RaftLog.Raft st nu ℕ) where
    -- `while (index++ < slot) { append(dummy); }`; the result is the index after the loop. A round
    -- is a test, and what follows if it holds.
    unfoldable pub fill_upto_by : ℕ → ℕ → ℕ → RaftLog.Raft st nu ℕ
    fill_upto_by zero index slot r = (err out_of_rounds, r)
    fill_upto_by (suc rounds) index slot r =
        let next : ℕ = (index + 1) % 2 ^ 64 in
        let more : Exec (HomeRaftLogStore S) ℕ =
          own_append r.dummy_log_entry >> fill_upto_by rounds next slot in
        if ltb index slot then more r else (ok next, r)

    -- How `apply_pack` makes `index` the next slot; the result is the value of `index` after it.
    unfoldable pub align_by : ℕ → ℕ → RaftLog.Raft st nu ℕ
    align_by index slot =
        if ltb index slot
        then (do
          RaftLog.update st nu (λ s. (tt, st.rollback_async s (to_store_lsn index -ℤ pos 1)))
          pure index)
        else if ltb slot index
        then fill_upto_by (suc (slot - index)) index slot
        else pure index

    -- The number of entries is an int32_t.
    unfoldable pub apply_pack_by : ℕ → Buffer → RaftLog.Raft st nu (Unit {0})
    apply_pack_by index pack = do
      (num, records) ← lift (nu.get_int (nu.rewind pack))
      let num_entries = to_int 32 num
      slot ← RaftLog.next_slot st nu
      index' ← align_by index slot
      unpack (pos_part num_entries) records
      RaftLog.update st nu
          (λ s. (tt, st.flush_sync s (to_store_lsn index' +ℤ num_entries -ℤ pos 1)))

  unfoldable pub apply_pack : ℕ → Buffer → RaftLog.Raft st nu (Unit {0})
  apply_pack = apply_pack_by (RaftLog.append st nu)
