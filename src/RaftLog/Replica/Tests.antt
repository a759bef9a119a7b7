-- ===== src/RaftLog/Replica/Tests.antt =====
-- ReplicaLogStore at a log in memory that holds the raft indexes 2 and 3.
use home_replication.Base.{◌≡◌, [], ◌∷◌, true, some}
use home_replication.Base.Exec.{ok, err, exception}
use home_replication.HomeStore.View.{LogView}
use home_replication.HomeStore.Memory.{memory_log, memory_log_laws}
use home_replication.Nuraft.Memory.{memory_nuraft, memory_format}
use home_replication.RaftLog.Tests.{
  entry, dummy, two_logged, log_at, Shows, dummy-IsEntry, two_logged-Shows,
}
use home_replication.RaftLog.Calls.{nothing, flag, index, entries, promised, promised_run}
use home_replication.RaftLog.Calls
use home_replication.RaftLog.Calls.Tests.{held, calls, calls-AdmitsAll}
use home_replication.RaftLog.Replica.{replica_log_store}
use home_replication.RaftLog.Replica.Promise.{log_call_run, replica_runs_as_promised}

replica_runs_as_promised_example :
    (s' : LogView) × (log_call_run
        (replica_log_store memory_log memory_nuraft)
        calls
        (log_at two_logged)
      ≡ (
        ok (index 4)
            ∷ ok (index 5)
            ∷ ok nothing
            ∷ ok (flag true)
            ∷ err exception
            ∷ ok (Calls.entry (entry 9))
            ∷ ok (index 6)
            ∷ ok (index 3)
            ∷ ok (entries (entry 6 ∷ entry 7 ∷ entry 9 ∷ []))
            ∷ [],
        log_at s',
      ))
    × Shows s' 2 (entry 6 ∷ entry 7 ∷ entry 9 ∷ [])
unfolding promised promised_run
replica_runs_as_promised_example =
    replica_runs_as_promised memory_log memory_nuraft memory_log_laws memory_format (some 7) dummy
      dummy-IsEntry calls two_logged held two_logged-Shows calls-AdmitsAll
