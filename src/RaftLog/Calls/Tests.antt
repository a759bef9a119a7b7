-- ===== src/RaftLog/Calls/Tests.antt =====
-- Sequences of calls at a log in memory that holds the raft indexes 2 and 3.
use home_replication.Base.{◌≡◌, refl, List, [], ◌∷◌, true, some, arith, All}
use home_replication.Base.Exec.{ok, err, exception}
use home_replication.HomeStore.View.{LogView}
use home_replication.HomeStore.Memory.{memory_log, memory_log_laws}
use home_replication.Nuraft.Memory.{memory_nuraft, memory_format}
use home_replication.RaftLog
use home_replication.RaftLog.Tests.{
  entry, dummy, two, two_logged, log_at, Shows, entry-IsEntry, dummy-IsEntry, two_logged-Shows,
}
use home_replication.RaftLog.Calls.{
  Call, append, write_at, compact, next_slot, start_index, last_entry, entry_at, log_entries, Reply,
  nothing, flag, index, entries, RaftSpec, promised, promised_run, AdmitsAll, call_run,
}
use home_replication.RaftLog.Calls
use home_replication.RaftLog.Calls.Refines.{runs_as_promised}
use home_replication.RaftLog.Calls.Stable.{Spares, entry_stable}

abbrev pub held : RaftSpec
held = record { first = 1; log = two }

-- Four entries are added, one of them is overwritten and the first two are compacted.
abbrev pub calls : List Call
calls =
    append (entry 7)
    ∷ append (entry 8)
    ∷ write_at 4 (entry 9)
    ∷ compact 1
    ∷ entry_at 1
    ∷ last_entry
    ∷ next_slot
    ∷ start_index
    ∷ log_entries 2 9
    ∷ []

pub calls-AdmitsAll : AdmitsAll memory_nuraft dummy calls held
unfolding promised
calls-AdmitsAll =
    let first = entry-IsEntry 7 (omega arith) in
    let second = entry-IsEntry 8 (omega arith) in
    let third = entry-IsEntry 9 (omega arith) in
    (
      (first, omega arith),
      (
        (second, omega arith),
        (
          (third, omega arith, omega arith, omega arith),
          (
            omega arith,
            (omega arith, (tt, (tt, (tt, ((omega arith, omega arith, omega arith), tt))))),
          ),
        ),
      ),
    )

runs_as_promised_example :
    (s' : LogView) × (call_run memory_log memory_nuraft calls (log_at two_logged) ≡ (
      ok (index 4)
          ∷ ok (index 5)
          ∷ ok nothing
          ∷ ok (flag true)
          ∷ err exception
          ∷ ok (Calls.entry (entry 9))
          ∷ ok (index 6)
          ∷ ok (index 3)
          ∷ ok (entries (entry 6 ∷ entry 7 ∷ entry 9 ∷ []))
          ∷ [],
      log_at s',
    ))
    × Shows s' 2 (entry 6 ∷ entry 7 ∷ entry 9 ∷ [])
unfolding promised promised_run
runs_as_promised_example =
    runs_as_promised memory_log memory_nuraft memory_log_laws memory_format (some 7) dummy
      dummy-IsEntry calls two_logged held two_logged-Shows calls-AdmitsAll

calls-Spares : All (Spares 2) calls
calls-Spares = (tt, (tt, (omega arith, (omega arith, (tt, (tt, (tt, (tt, (tt, tt)))))))))

entry_stable_example :
    (s' : LogView) × ((call_run memory_log memory_nuraft calls (log_at two_logged)).1 ≡ log_at s')
    × (RaftLog.entry_at memory_log memory_nuraft 3 (log_at s') ≡ (ok (entry 6), log_at s'))
entry_stable_example =
    entry_stable memory_log memory_nuraft memory_log_laws memory_format (some 7) dummy dummy-IsEntry
      calls two_logged held two_logged-Shows calls-AdmitsAll 2 (entry 6) (omega arith) (omega arith)
      refl calls-Spares
