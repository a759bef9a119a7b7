-- ===== src/Backend/Tests.antt =====
-- The log of a new replica set, over a log in memory.
use home_replication.Base.{
  ℕ, ◌+◌, ◌≡◌, refl, List, [], ◌∷◌, ◌++◌, All, map, none, false, inl, inr, arith,
}
use home_replication.Base.Int.{pos}
use home_replication.Base.Exec.{Result, ok, err, null_pointer, assertion}
use home_replication.Bytes.{Bytes}
use home_replication.Maps.{find}
use home_replication.HomeStore.MemoryRecords.{Records, no_records, record_log}
use home_replication.StateStore.{HomeRsSuperblk, replica_set_sb_magic, replica_set_sb_version}
use home_replication.Service.Sets.{IsWell}
use home_replication.Service.Several.{IsDistinct}
use home_replication.Backend.Restart.{HomeService, uuid_of, found_all, Started, restart_lem}
use mathlib.Core.List.{Permᴰ}
use home_replication.Backend.Order.{empty, found, restart_order}
use home_replication.Backend.Create.{
  NewSet, new_uuid, superblock_of, create_all, durable, create_restart,
}
use home_replication.Backend.Refused.{restart_stops}
use home_replication.HomeStore.View.{LogView}
use home_replication.HomeStore.Memory.{memory_log}
use home_replication.Nuraft.{LogEntry}
use home_replication.Nuraft.Memory.{memory_nuraft}
use home_replication.RaftLog.{
  HomeRaftLogStore, append, next_slot, start_index, last_entry, entry_at, log_entries,
}
use home_replication.Backend.{create_log_store, created_log_lem}

abbrev entry : LogEntry
entry = record { term = 5; val_type = 1; buf = 10 ∷ [] }

abbrev new_log : HomeRaftLogStore LogView
new_log = (create_log_store memory_log memory_nuraft).0

created_log_lem_example :
    ((create_log_store memory_log memory_nuraft).1 ≡ none)
    × (append memory_log memory_nuraft entry new_log ≡ (err null_pointer, new_log))
    × (next_slot memory_log memory_nuraft new_log ≡ (err null_pointer, new_log))
    × (start_index memory_log memory_nuraft new_log ≡ (err null_pointer, new_log))
    × (last_entry memory_log memory_nuraft new_log ≡ (err null_pointer, new_log))
    × (entry_at memory_log memory_nuraft 1 new_log ≡ (err null_pointer, new_log))
    × (log_entries memory_log memory_nuraft 1 2 new_log ≡ (err null_pointer, new_log))
created_log_lem_example = created_log_lem memory_log memory_nuraft entry 1 2

abbrev superblock : ℕ → HomeRsSuperblk
superblock uuid = record {
  magic = replica_set_sb_magic;
  version = replica_set_sb_version;
  uuid = uuid;
  free_pba_store_id = 9;
  data_journal_id = 8;
  commit_lsn = pos 0;
  checkpoint_lsn = pos 0;
}

abbrev to_string : ℕ → Bytes
to_string uuid = uuid ∷ []

abbrev on_rs_init : ℕ → Result ℕ
on_rs_init rs = ok (50 + rs)

abbrev Service : Type 0
Service = HomeService record_log memory_log memory_nuraft false to_string on_rs_init

abbrev nothing : Service
nothing = record { rs_map = []; objects = [] }

nothing-IsWell : IsWell to_string nothing
nothing-IsWell = record { ascending = tt; named = tt }

-- The superblocks of two sets, in the order in which the device gives them.
abbrev two_sets : List HomeRsSuperblk
two_sets = superblock 8 ∷ superblock 3 ∷ []

two_sets-IsDistinct : IsDistinct uuid_of two_sets
two_sets-IsDistinct = ((λ (e : 3 ≡ 8). omega arith, tt), (tt, tt))

two_sets-fresh : All (λ (sb : HomeRsSuperblk). find sb.uuid nothing.rs_map ≡ none) two_sets
unfolding find
two_sets-fresh = (refl, (refl, tt))

restart_lem_example :
    (svc : Service) × (found_all record_log memory_log memory_nuraft false to_string on_rs_init
        two_sets nothing
      ≡ (ok tt, svc))
    × Started record_log memory_log memory_nuraft false to_string on_rs_init nothing svc two_sets
restart_lem_example =
    restart_lem record_log memory_log memory_nuraft false to_string on_rs_init two_sets nothing
      (λ p. (50 + p, refl)) nothing-IsWell ((refl, refl), ((refl, refl), tt)) two_sets-IsDistinct
      two_sets-fresh

-- A superblock of a version to come.
abbrev newer : HomeRsSuperblk
newer = record (superblock 5) { version = 2 }

restart_stops_example :
    (svc : Service) × (found_all record_log memory_log memory_nuraft false to_string on_rs_init
        (two_sets ++ (newer ∷ superblock 6 ∷ []))
        nothing
      ≡ (err assertion, svc))
    × Started record_log memory_log memory_nuraft false to_string on_rs_init nothing svc two_sets
restart_stops_example =
    restart_stops record_log memory_log memory_nuraft false to_string on_rs_init two_sets
      (superblock 6 ∷ []) newer nothing (λ p. (50 + p, refl)) nothing-IsWell
      ((refl, refl), ((refl, refl), tt)) two_sets-IsDistinct two_sets-fresh refl
      (inr (inl (λ (e : 2 ≡ 1). omega arith)))

restart_order_example :
    (svc svc' : Service) × (found_all record_log memory_log memory_nuraft false to_string on_rs_init
        two_sets
        (empty record_log memory_log memory_nuraft false to_string on_rs_init)
      ≡ (ok tt, svc))
    × (found_all record_log memory_log memory_nuraft false to_string on_rs_init
          (superblock 3 ∷ superblock 8 ∷ [])
          (empty record_log memory_log memory_nuraft false to_string on_rs_init)
        ≡ (ok tt, svc'))
    × (found record_log memory_log memory_nuraft false to_string on_rs_init 3 svc
        ≡ found record_log memory_log memory_nuraft false to_string on_rs_init 3 svc')
restart_order_example =
    restart_order record_log memory_log memory_nuraft false to_string on_rs_init two_sets
      (superblock 3 ∷ superblock 8 ∷ []) 3 (Permᴰ.swap refl refl) (λ p. (50 + p, refl))
      ((refl, refl), ((refl, refl), tt)) two_sets-IsDistinct

-- Two new sets, with a free pba store in memory each.
abbrev new_sets : List (NewSet Records)
new_sets =
    record { uuid = 8; created = superblock 0; store = no_records }
    ∷ record { uuid = 3; created = superblock 0; store = no_records }
    ∷ []

new_sets-IsDistinct : IsDistinct new_uuid new_sets
new_sets-IsDistinct = ((λ (e : 3 ≡ 8). omega arith, tt), (tt, tt))

create_restart_example :
    (svc svc' : Service) × (create_all record_log memory_log memory_nuraft false to_string
        on_rs_init new_sets
        (empty record_log memory_log memory_nuraft false to_string on_rs_init)
      ≡ (ok tt, svc))
    × (found_all record_log memory_log memory_nuraft false to_string on_rs_init
          (map
            (superblock_of record_log memory_log memory_nuraft false to_string on_rs_init)
            new_sets)
          (empty record_log memory_log memory_nuraft false to_string on_rs_init)
        ≡ (ok tt, svc'))
    × (durable record_log memory_log memory_nuraft false to_string on_rs_init 3 svc
        ≡ durable record_log memory_log memory_nuraft false to_string on_rs_init 3 svc')
create_restart_example =
    create_restart record_log memory_log memory_nuraft false to_string on_rs_init new_sets 3
      (λ p. (50 + p, refl)) ((refl, refl), ((refl, refl), tt)) new_sets-IsDistinct
