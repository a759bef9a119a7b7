-- ===== src/Backend.antt =====
-- HomeReplicationBackend of lib/service/home_repl_backend.cpp: how the service gets its stores.
-- A ReplicaLogStore has the state of a HomeRaftLogStore, which stands for it here; its methods are in
-- RaftLog.Replica.
pub mod Create
pub mod Order
pub mod Refused
pub mod Restart
pub mod Tests
use home_replication.Base.{
  ℕ, ◌≡◌, refl, Bool, true, false, ◌&&◌, not, Option, none, some, ◌==◌, if◌then◌else◌,
}
use home_replication.Base.Exec.{
  Result, ok, err, null_pointer, assertion, Exec, pure, throw, ◌>>=◌, ◌>>◌,
}
use home_replication.Bytes.{Bytes}
use home_replication.HomeStore.{HomeLogStore}
use home_replication.Nuraft.{LogEntry, Nuraft}
use home_replication.RaftLog.{
  HomeRaftLogStore, construct, uint32_max, append, next_slot, start_index, last_entry, entry_at,
  log_entries,
}
use home_replication.StateStore.{
  HomeRsSuperblk, HomeStateMachineStore, create, open_existing, replica_set_sb_magic,
  replica_set_sb_version,
}
use home_replication.Service.{Svc, on_replica_store_found}

-- A store of a set, and the id of the log store that its constructor asked the log store service to
-- open, which will then call `on_store_created` of it.
abbrev pub SmObject : Type 0 → Type 0
SmObject S = HomeStateMachineStore S × Option ℕ

abbrev pub RaftObject : Type 0 → Type 0
RaftObject T = HomeRaftLogStore T × Option ℕ

module _ {T : Type 0} (st : HomeLogStore T) (nu : Nuraft) where
  unfoldable pub create_log_store : RaftObject T
  create_log_store = construct st nu uint32_max

  abbrev pub new_log : HomeRaftLogStore T
  new_log = create_log_store.0

  -- The backend's `create_log_store` asks for no log store to be opened, and on the log that it
  -- makes each of `append`, `next_slot`, `start_index`, `last_entry`, `entry_at` and `log_entries`
  -- is a call through a null pointer.
  pub created_log_lem :
      (e : LogEntry) (index end : ℕ)
      → (create_log_store.1 ≡ none)
        × (append st nu e new_log ≡ (err null_pointer, new_log))
        × (next_slot st nu new_log ≡ (err null_pointer, new_log))
        × (start_index st nu new_log ≡ (err null_pointer, new_log))
        × (last_entry st nu new_log ≡ (err null_pointer, new_log))
        × (entry_at st nu index new_log ≡ (err null_pointer, new_log))
        × (log_entries st nu index end new_log ≡ (err null_pointer, new_log))
  unfolding create_log_store construct append next_slot start_index last_entry entry_at log_entries
  created_log_lem e index end = (refl, refl, refl, refl, refl, refl, refl)

module _ {S T : Type 0} (sms_log : HomeLogStore S) (st : HomeLogStore T) (nu : Nuraft) where
  -- A new state store holds its log already.
  abbrev opened_already : Result (HomeStateMachineStore S) → Result (SmObject S)
  opened_already (ok store) = ok (store, none)
  opened_already (err e) = err e

  -- `created` is what `superblk::create` leaves, `store` what `create_new_log_store` gives.
  unfoldable pub create_state_store : HomeRsSuperblk → Option S → ℕ → Result (SmObject S)
  create_state_store created store uuid = opened_already (create sms_log created uuid store)

  abbrev pub found_state_store : HomeRsSuperblk → SmObject S
  found_state_store rs_sb =
      let (store, free_pba_store_id) = open_existing sms_log rs_sb in
      (store, some free_pba_store_id)

  -- `DEBUG_ASSERT_EQ` is left out of a build with NDEBUG.
  unfoldable pub rs_super_blk_found :
      {L : Type 0}
      → Bool
      → (ℕ → Bytes)
      → (ℕ → Result L)
      → HomeRsSuperblk
      → Svc (SmObject S) (RaftObject T) L (Unit {0})
  rs_super_blk_found ndebug to_string on_rs_init rs_sb =
      if not ndebug
        && not (rs_sb.magic == replica_set_sb_magic && rs_sb.version == replica_set_sb_version)
      then throw assertion
      else on_replica_store_found ndebug to_string on_rs_init rs_sb.uuid (found_state_store rs_sb)
          (construct st nu rs_sb.data_journal_id)
