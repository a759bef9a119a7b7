-- ===== src/SmStore/Tests.antt =====
-- A state machine store in memory, without records at first.
use home_replication.Base.{◌≡◌, refl, ◌∷◌, [], List, All, some, arith}
use home_replication.Base.Int.{pos}
use home_replication.Base.Exec.{ok}
use home_replication.HomeStore.MemoryRecords.{
  Records, no_records, record_log, record_log_laws, held-no_records,
}
use home_replication.StateStore.{
  HomeRsSuperblk, HomeStateMachineStore, replica_set_sb_magic, replica_set_sb_version,
}
use home_replication.StateStore.Records.{Pbas, opened}
use home_replication.HomeStore.Records.{put, from, within}
use home_replication.StateStore.Pbas.{IsPbaList}
use home_replication.SmStore.{SmSpec}
use home_replication.SmStore.Calls.{
  SmCall, commit_lsn, get_last_commit_lsn, add_free_pba_record, get_free_pba_records,
  remove_free_pba_records_upto, flush_free_pba_records, done, lsn, records, IsAdmitted, sm_call_run,
  sm_promised, sm_promised_run,
}
use home_replication.SmStore.Home.{home_store, HomeHolds, home_runs_as_promised}

abbrev superblock : HomeRsSuperblk
superblock = record {
  magic = replica_set_sb_magic;
  version = replica_set_sb_version;
  uuid = 77;
  free_pba_store_id = 9;
  data_journal_id = 8;
  commit_lsn = pos 0;
  checkpoint_lsn = pos 0;
}

abbrev pub empty_store : HomeStateMachineStore Records
empty_store = opened superblock (some superblock) superblock no_records (pos 0)

abbrev pub empty_spec : SmSpec
empty_spec = record { commit = pos 0; records = [] }

pub empty_store-HomeHolds : HomeHolds record_log record_log_laws empty_store empty_spec
empty_store-HomeHolds = record {
  sb = superblock;
  disk = some superblock;
  mem = superblock;
  log = no_records;
  last = 0;
  is_open = refl;
  rep = record { shows = held-no_records; free = tt };
  committed = refl;
}

abbrev pba_list : Pbas
pba_list = 10 ∷ 20 ∷ []

pba_list-IsPbaList : IsPbaList pba_list
pba_list-IsPbaList = record { pba_fits = (omega arith, (omega arith, tt)); size_fits = omega arith }

-- Two records, of which the first is removed again.
abbrev calls : List SmCall
calls =
    add_free_pba_record 4 pba_list
    ∷ commit_lsn (pos 12)
    ∷ add_free_pba_record 6 []
    ∷ flush_free_pba_records
    ∷ remove_free_pba_records_upto 4
    ∷ get_last_commit_lsn
    ∷ get_free_pba_records 0 9
    ∷ []

calls-IsAdmitted : All IsAdmitted calls
calls-IsAdmitted =
    let none : IsPbaList [] = record { pba_fits = tt; size_fits = omega arith } in
    (
      (omega arith, pba_list-IsPbaList),
      (tt, ((omega arith, none), (tt, (tt, (tt, ((omega arith, omega arith), tt)))))),
    )

home_runs_as_promised_example :
    (r : HomeStateMachineStore Records) × (sm_call_run (home_store record_log) calls empty_store ≡ (
      ok done
          ∷ ok done
          ∷ ok done
          ∷ ok done
          ∷ ok done
          ∷ ok (lsn (pos 12))
          ∷ ok (records ((pos 7, []) ∷ []))
          ∷ [],
      r,
    ))
    × HomeHolds record_log record_log_laws r (record { commit = pos 12; records = (6, []) ∷ [] })
unfolding sm_promised sm_promised_run put from within
home_runs_as_promised_example =
    home_runs_as_promised record_log record_log_laws calls empty_store empty_spec
      empty_store-HomeHolds calls-IsAdmitted
