-- ===== src/RaftLog/Tests.antt =====
-- The theorems about HomeRaftLogStore at a log in memory: the raft indexes 2 and 3 are held, the
-- first was compacted.
use home_replication.Base.{ℕ, ◌^◌, ◌<◌, ◌≡◌, ◌≢◌, refl, List, [], ◌∷◌, map, some, inl, All, arith}
use home_replication.Base.Exec.{ok, err, exception}
use home_replication.Bytes.{le_bytes}
use home_replication.HomeStore.View.{LogView}
use home_replication.HomeStore.Memory.{memory_log, memory_log_laws, view-memory_log}
use home_replication.Nuraft.{LogEntry}
use home_replication.Nuraft.Memory.{memory_nuraft, memory_format}
use home_replication.RaftLog.{HomeRaftLogStore, entry_at, term_at, log_entries}
use home_replication.RaftLog.Codec.{IsEntry}
use home_replication.RaftLog.Represents.{opened, Represents}
use home_replication.RaftLog.Reads.{term_mismatch, reads_missing}
use home_replication.RaftLog.Ranges.{read_each, log_entries-read_each}

abbrev pub entry : ℕ → LogEntry
entry term = record { term = term; val_type = 1; buf = 10 ∷ 20 ∷ [] }

abbrev pub dummy : LogEntry
dummy = record { term = 0; val_type = 1; buf = [] }

abbrev pub two : List LogEntry
two = entry 5 ∷ entry 6 ∷ []

abbrev pub two_logged : LogView
two_logged = record { first = 1; entries = map memory_nuraft.serialize two }

abbrev pub empty_log : LogView
empty_log = record { first = 3; entries = [] }

abbrev pub log_at : LogView → HomeRaftLogStore LogView
log_at s = opened (some 7) dummy s

abbrev pub Shows : LogView → ℕ → List LogEntry → Type 0
Shows s first es = Represents memory_nuraft memory_log_laws s first es

pub entry-IsEntry : (term : ℕ) → term < 2 ^ 64 → IsEntry memory_nuraft (entry term)
unfolding le_bytes
entry-IsEntry term h = record { term_fits = h; type_fits = omega arith; size_fits = omega arith }

pub dummy-IsEntry : IsEntry memory_nuraft dummy
unfolding le_bytes
dummy-IsEntry = record { term_fits = omega arith; type_fits = omega arith; size_fits = omega arith }

pub two-entries : All (IsEntry memory_nuraft) two
two-entries = (entry-IsEntry 5 (omega arith), (entry-IsEntry 6 (omega arith), tt))

pub two_logged-Shows : Shows two_logged 1 two
two_logged-Shows = record {
  shows = view-memory_log _;
  entries = two-entries;
  bounded = omega arith;
}

pub empty_log-Shows : Shows empty_log 3 []
empty_log-Shows = record { shows = view-memory_log _; entries = tt; bounded = omega arith }

term_mismatch_example :
    (entry_at memory_log memory_nuraft 3 (log_at two_logged) ≡ (ok (entry 6), log_at two_logged))
    × ((term : ℕ) × (term_at memory_log memory_nuraft 3 (log_at two_logged)
          ≡ (ok term, log_at two_logged))
        × (term ≢ 6))
term_mismatch_example =
    term_mismatch memory_log memory_nuraft memory_log_laws memory_format (some 7) dummy two_logged 1
      two two_logged-Shows 2 (entry 6) (omega arith) (omega arith) refl (omega arith) (omega arith)

reads_missing_example :
    (entry_at memory_log memory_nuraft 1 (log_at two_logged) ≡ (err exception, log_at two_logged))
    × (term_at memory_log memory_nuraft 1 (log_at two_logged) ≡ (err exception, log_at two_logged))
reads_missing_example =
    reads_missing memory_log memory_nuraft memory_log_laws memory_format (some 7) dummy two_logged 1
      two two_logged-Shows 0 (omega arith) (inl (omega arith))

log_entries-read_each_example :
    log_entries memory_log memory_nuraft 2 4 (log_at two_logged)
    ≡ read_each memory_log memory_nuraft 2 1 (log_at two_logged)
log_entries-read_each_example =
    log_entries-read_each memory_log memory_nuraft memory_log_laws memory_format (some 7) dummy
      two_logged 1 two two_logged-Shows 1 2 (omega arith) (omega arith) (omega arith)
