-- ===== src/RaftLog/Replica/Promise.antt =====
-- Sequences of calls of nuraft's log store interface on ReplicaLogStore, against the promised log.
use home_replication.Base.{ℕ, ◌+◌, ◌≡◌, ◌∙◌, refl, Option, List, [], ◌∷◌}
use home_replication.Base.Exec.{Result, Exec, pure, ◌>>=◌}
use home_replication.HomeStore.{HomeLogStore, AppendLog}
use home_replication.Nuraft.{LogEntry, Nuraft, EntryFormat}
use home_replication.RaftLog
use home_replication.RaftLog.{HomeRaftLogStore}
use home_replication.RaftLog.Codec.{IsEntry}
use home_replication.RaftLog.Represents.{opened}
use home_replication.RaftLog.Calls.{
  Call, append, write_at, compact, flush, next_slot, start_index, last_entry, entry_at, log_entries,
  Reply, nothing, flag, index, entry, entries, RaftSpec, promised_run, AdmitsAll, call, call_run,
}
use home_replication.RaftLog.Calls.Refines.{Holds, runs_as_promised}
use home_replication.RaftLog.Replica
use home_replication.RaftLog.Replica.{LogStore, replica_log_store}

module _ {T Buffer : Type 0} (store : LogStore T Buffer) where
  abbrev answer : {A : Type 0} → (A → Reply) → Exec T A → Exec T Reply
  answer f m = do a ← m; pure (f a)

  unfoldable pub log_call : Call → Exec T Reply
  log_call (append e) = answer index (store.append e)
  log_call (write_at i e) = answer (λ _. nothing) (store.write_at (i + 1) e)
  log_call (compact c) = answer flag (store.compact (c + 1))
  log_call flush = answer flag store.flush
  log_call next_slot = answer index store.next_slot
  log_call start_index = answer index store.start_index
  log_call last_entry = answer entry store.last_entry
  log_call (entry_at i) = answer entry (store.entry_at (i + 1))
  log_call (log_entries i j) = answer entries (store.log_entries (i + 1) (j + 1))

  unfoldable pub log_call_run : List Call → T → List (Result Reply) × T
  log_call_run [] t = ([], t)
  log_call_run (c ∷ cs) t =
      let (a, t') = log_call c t in let (rest, t'') = log_call_run cs t' in (a ∷ rest, t'')

module _ {S : Type 0} (st : HomeLogStore S) (nu : Nuraft) where
  abbrev replica : LogStore (HomeRaftLogStore S) nu.Buffer
  replica = replica_log_store st nu

  call-same : (c : Call) (r : HomeRaftLogStore S) → log_call replica c r ≡ call st nu c r
  unfolding log_call call replica_log_store Replica.append Replica.write_at RaftLog.write_at
      RaftLog.compact
  call-same (append e) r = refl
  call-same (write_at i e) r = refl
  call-same (compact c) r = refl
  call-same flush r = refl
  call-same next_slot r = refl
  call-same start_index r = refl
  call-same last_entry r = refl
  call-same (entry_at i) r = refl
  call-same (log_entries i j) r = refl

  run-same :
      (cs : List Call) (r : HomeRaftLogStore S) → log_call_run replica cs r ≡ call_run st nu cs r
  unfolding log_call_run call_run
  run-same [] r = refl
  run-same (c ∷ cs) r = rw (call-same c r, run-same cs (call st nu c r).1) refl

  module _ (law : AppendLog st) (format : EntryFormat nu) (id : Option ℕ) (dummy : LogEntry)
      (dummy_fits : IsEntry nu dummy) where
    -- On a log as `runs_as_promised` takes it, the object of ReplicaLogStore that the backend
    -- makes, used through nuraft's interface of a log store, gives for every admitted sequence of
    -- calls the answers of `promised_run`, a model on the list alone, and leaves an open log that
    -- holds the list of the model.
    pub replica_runs_as_promised :
        (cs : List Call) (s : S) (a : RaftSpec)
        → Holds nu law s a
        → AdmitsAll nu dummy cs a
        → (s' : S) × (log_call_run replica cs (opened id dummy s)
            ≡ ((promised_run dummy cs a).0, opened id dummy s'))
          × Holds nu law s' (promised_run dummy cs a).1
    replica_runs_as_promised cs s a rep admits =
        let (s', run, rep') =
          runs_as_promised st nu law format id dummy dummy_fits cs s a rep admits in
        (s', run-same cs (opened id dummy s) ∙ run, rep')
