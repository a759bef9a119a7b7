-- ===== src/StateMachine/Tests.antt =====
-- The state machine over a store in memory.
use home_replication.Base.{◌≡◌, refl, ◌∷◌, [], List, some, arith}
use home_replication.Base.Int.{pos}
use home_replication.Base.Exec.{ok}
use home_replication.HomeStore.MemoryRecords.{Records, no_records, record_log, record_log_laws}
use home_replication.StateStore.{
  HomeRsSuperblk, HomeStateMachineStore, replica_set_sb_magic, replica_set_sb_version, create,
  open_existing, on_store_created,
}
use home_replication.StateMachine.Restart.{written, restart_commit}
use home_replication.SmStore.Home.{home_store}
use home_replication.SmStore.Calls.{
  SmCall, commit_lsn, remove_free_pba_records_upto, flush_free_pba_records, sm_call_run,
}
use home_replication.SmStore.Tests.{empty_store, empty_spec, empty_store-HomeHolds}
use home_replication.StateMachine.{last_commit_index, last_commit_kept}

abbrev later : List SmCall
later = remove_free_pba_records_upto 4 ∷ flush_free_pba_records ∷ []

last_commit_kept_example :
    (r : HomeStateMachineStore Records) × ((sm_call_run
        (home_store record_log)
        (commit_lsn (pos 12) ∷ later)
        empty_store).1
      ≡ r)
    × (last_commit_index (home_store record_log) r ≡ (ok 12, r))
last_commit_kept_example =
    last_commit_kept record_log record_log_laws later empty_store empty_spec 12
      empty_store-HomeHolds (tt, (tt, tt)) (tt, (tt, tt)) (omega arith)

abbrev created : HomeRsSuperblk
created = record {
  magic = replica_set_sb_magic;
  version = replica_set_sb_version;
  uuid = 0;
  free_pba_store_id = 0;
  data_journal_id = 0;
  commit_lsn = pos 0;
  checkpoint_lsn = pos 0;
}

restart_commit_example :
    (r r' : HomeStateMachineStore Records) × (create record_log created 77 (some no_records) ≡ ok r)
    × ((sm_call_run (home_store record_log) (commit_lsn (pos 12) ∷ later) r).1.sb_on_disk
        ≡ some (written record_log created 77 no_records))
    × (on_store_created record_log no_records
          (open_existing record_log (written record_log created 77 no_records)).0
        ≡ (ok tt, r'))
    × (last_commit_index (home_store record_log) r' ≡ (ok 0, r'))
restart_commit_example =
    restart_commit record_log created 77 no_records no_records (commit_lsn (pos 12) ∷ later) refl
