-- ===== src/RaftLog/Durable.antt =====
-- HomeRaftLogStore over a log store whose process crashes: what `flush` and `apply_pack` of
-- lib/log_store/home_raft_log_store.cpp keep for the object that opens the log store again.
pub mod Tests
use home_replication.Base.{
  ℕ, zero, suc, ◌+◌, ◌-◌, ◌^◌, ◌≤◌, ◌<◌, ◌≡◌, ◌∙◌, refl, ap, Option, none, some, true, List, [],
  ◌∷◌, ◌++◌, length, get_elem?, arith, All-get_elem?, get_elem?-lt,
}
use home_replication.Base.Int.{pos}
use home_replication.Base.Exec.{ok}
use home_replication.HomeStore.{HomeLogStore, AppendLog, DurableLog}
use home_replication.HomeStore.View.{LogView, at, next}
use home_replication.Nuraft.{LogEntry, Nuraft, EntryFormat}
use home_replication.RaftLog
use home_replication.RaftLog.{HomeRaftLogStore, construct, on_store_created, read_entry}
use home_replication.RaftLog.Codec.{IsEntry}
use home_replication.RaftLog.Represents.{opened, Represents, next_of, store_lsn_of}
use home_replication.RaftLog.Reads.{read_entry_held, at_held}
use home_replication.RaftLog.Calls.{Call, RaftSpec, promised_run, AdmitsAll, call_run}
use home_replication.RaftLog.Calls.Refines.{Holds, runs_as_promised}

module _ {S : Type 0} (st : HomeLogStore S) (nu : Nuraft) (law : AppendLog st)
    (format : EntryFormat nu) (durable : DurableLog law) where
  -- A new object of the store's id, and the store that was opened again.
  abbrev pub Reopens : ℕ → S → HomeRaftLogStore S → Type 0
  Reopens logstore_id s r =
      on_store_created st nu (durable.reopened s) (construct st nu logstore_id).0 ≡ (ok tt, r)

  -- The object that opens the store reads the record back.
  pub read_again :
      (logstore_id : ℕ) (s : S) (i : ℕ) (e : LogEntry)
      → i + 1 < 2 ^ 63
      → i < durable.flushed s
      → at (law.view s) i ≡ some (nu.serialize e)
      → IsEntry nu e
      → (r : HomeRaftLogStore S) × Reopens logstore_id s r
        × (RaftLog.entry_at st nu (i + 1) r ≡ (ok e, r))
  unfolding construct on_store_created RaftLog.entry_at
  read_again logstore_id s i e fits on_device held he =
      let t : S = durable.reopened s in
      let fresh : HomeRaftLogStore S = (construct st nu logstore_id).0 in
      let again = durable.reopened_held s i (nu.serialize e) on_device held in
      (
        opened (some (st.get_store_id t)) fresh.dummy_log_entry t,
        refl,
        rw (
          store_lsn_of i fits,
          read_entry_held st nu law format none fresh.dummy_log_entry t i e again he,
        ),
      )

  -- Take a log as `runs_as_promised` takes it, over a log store that keeps the laws of
  -- `DurableLog`: a flush puts records on the device, and a crash loses no record that is held and
  -- on the device. After any admitted sequence of calls `flush()` succeeds, and when the process
  -- then crashes, a new object of any store id that is given the store as it is opened again reads
  -- back, by `entry_at`, every entry of the log that the sequence is promised to leave.
  pub flush_durable :
      (id : Option ℕ) (dummy : LogEntry) (dummy_fits : IsEntry nu dummy) (cs : List Call) (s : S)
      (a : RaftSpec)
      → Holds nu law s a
      → AdmitsAll nu dummy cs a
      → (logstore_id i : ℕ) (e : LogEntry) → (promised_run dummy cs a).1.first ≤ i
      → get_elem? (promised_run dummy cs a).1.log (i - (promised_run dummy cs a).1.first) ≡ some e
      → (s' : S) × (r : HomeRaftLogStore S) × (RaftLog.flush st nu
            (call_run st nu cs (opened id dummy s)).1
          ≡ (ok true, opened id dummy s'))
        × Reopens logstore_id s' r
        × (RaftLog.entry_at st nu (i + 1) r ≡ (ok e, r))
  unfolding RaftLog.flush
  flush_durable id dummy dummy_fits cs s a rep admits logstore_id i e lo there =
      let a' : RaftSpec = (promised_run dummy cs a).1 in
      let (t, run, rep') =
        runs_as_promised st nu law format id dummy dummy_fits cs s a rep admits in
      let u : S = st.flush_sync t st.invalid_lsn in
      let lt : i - a'.first < length a'.log = get_elem?-lt a'.log (i - a'.first) e there in
      let held : at (law.view u) i ≡ some (nu.serialize e) =
        rw (law.flush_view t st.invalid_lsn)
          (at_held st nu law format id dummy t a'.first a'.log rep' i e lo there) in
      let on_device : i < durable.flushed u =
        omega (arith, durable.flush_all t, next_of nu law rep') in
      let (r, again, reads) =
        read_again logstore_id u i e (omega (arith, rep'.bounded)) on_device held
          (All-get_elem? (IsEntry nu) a'.log (i - a'.first) e rep'.entries there) in
      (u, r, rw run refl, again, reads)
