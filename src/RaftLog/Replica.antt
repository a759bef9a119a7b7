-- ===== src/RaftLog/Replica.antt =====
-- ReplicaLogStore< HomeRaftLogStore > of lib/log_store/repl_log_store.hpp, the log that the backend
-- gives to a replica set. It overrides `append` and `write_at`; since `append` is virtual, the
-- methods of HomeRaftLogStore that call it call the one of ReplicaLogStore.
pub mod Promise
pub mod Tests
use home_replication.Base.{ℕ, zero, suc, ◌+◌, ◌-◌, ◌%◌, ◌^◌, Bool, true, ltb, if◌then◌else◌, List}
use home_replication.Base.Int.{ℤ, pos, pos_part, to_int, ◌+ℤ◌, ◌-ℤ◌, ltb_ℤ}
use home_replication.Base.Exec.{Result, ok, err, Exec, pure, lift, ◌>>=◌, ◌>>◌}
use home_replication.HomeStore.{HomeLogStore}
use home_replication.Nuraft.{LogEntry, Nuraft}
use home_replication.RaftLog
use home_replication.RaftLog.{HomeRaftLogStore, Raft, update, issued, to_store_lsn}
use home_replication.RaftLog.Pack.{pack, apply_pack_by}

-- nuraft::log_store: the virtual functions that nuraft calls.
pub record LogStore (T Buffer : Type 0) : Type 0 where
  pub next_slot : Exec T ℕ
  pub start_index : Exec T ℕ
  pub last_entry : Exec T LogEntry
  pub append : LogEntry → Exec T ℕ
  pub write_at : ℕ → LogEntry → Exec T (Unit {0})
  pub end_of_append_batch : ℕ → ℕ → Exec T (Unit {0})
  pub log_entries : ℕ → ℕ → Exec T (List LogEntry)
  pub entry_at : ℕ → Exec T LogEntry
  pub term_at : ℕ → Exec T ℕ
  pub pack : ℕ → ℤ → Exec T Buffer
  pub apply_pack : ℕ → Buffer → Exec T (Unit {0})
  pub compact : ℕ → Exec T Bool
  pub flush : Exec T Bool

module _ {S : Type 0} (st : HomeLogStore S) (nu : Nuraft) where
  open nu use {Buffer}

  unfoldable pub append : LogEntry → Raft st nu ℕ
  append = RaftLog.append st nu

  unfoldable pub write_at : ℕ → LogEntry → Raft st nu (Unit {0})
  write_at = RaftLog.write_at_by st nu append

  -- The object behind nuraft's interface.
  unfoldable pub replica_log_store : LogStore (HomeRaftLogStore S) Buffer
  replica_log_store = record {
    next_slot = RaftLog.next_slot st nu;
    start_index = RaftLog.start_index st nu;
    last_entry = RaftLog.last_entry st nu;
    append = append;
    write_at = write_at;
    end_of_append_batch = RaftLog.end_of_append_batch st nu;
    log_entries = RaftLog.log_entries st nu;
    entry_at = RaftLog.entry_at st nu;
    term_at = RaftLog.term_at st nu;
    pack = pack st nu;
    apply_pack = apply_pack_by st nu append;
    compact = RaftLog.compact_by st nu append;
    flush = RaftLog.flush st nu;
  }
