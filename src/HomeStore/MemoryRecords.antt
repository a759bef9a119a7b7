-- ===== src/HomeStore/MemoryRecords.antt =====
-- A HomeLogStore in memory that is written at chosen numbers, which shows that the laws of such a
-- log can be met, and on which the tests run.
use home_replication.Base.{ℕ, suc, ◌≤◌, ◌≡◌, refl, List, []}
use home_replication.Base.Int.{ℤ, pos, negsuc}
use home_replication.Base.Exec.{err, out_of_range}
use home_replication.Bytes.{Bytes}
use home_replication.HomeStore.{HomeLogStore, RecordLog, Visitor, visit_records}
use home_replication.HomeStore.Records.{IsAscending, put, from, put-IsAscending, from-IsAscending}

pub data Flushed : Type 0 where
  nothing : Flushed
  upto : ℕ → Flushed
  everything : Flushed

abbrev IsFlushed : Flushed → ℕ → Type 0
IsFlushed nothing m = ⊥
IsFlushed (upto n) m = m ≤ n
IsFlushed everything m = Unit {0}

pub record Records : Type 0 where
  pub held : List (ℕ × Bytes)
  pub ascending : IsAscending held
  pub flushed : Flushed

pub no_records : Records
no_records = record { held = []; ascending = tt; flushed = nothing }

write : Records → ℤ → Bytes → Records
write s (pos n) b = record {
  held = put n b s.held;
  ascending = put-IsAscending n b s.held s.ascending;
  flushed = nothing;
}
write s (negsuc n) b = s

truncate : Records → ℤ → Records
truncate s (pos n) = record {
  held = from (suc n) s.held;
  ascending = from-IsAscending (suc n) s.held s.ascending;
  flushed = s.flushed;
}
truncate s (negsuc n) = s

walk : (B : Type 0) → Records → ℤ → Visitor B → B → B
walk B s (pos n) cb acc = visit_records cb (from n s.held) acc
walk B s (negsuc n) cb acc = acc

flush : Records → ℤ → Records
flush s (pos n) = record s { flushed = upto n }
flush s (negsuc n) = record s { flushed = everything }

pub record_log : HomeLogStore Records
unfolding write truncate walk flush
record_log = record {
  get_store_id = λ s. 9;
  get_contiguous_issued_seq_num = λ s z. z;
  truncated_upto = λ s. negsuc 0;
  read_sync = λ s z. err out_of_range;
  append_async = λ s b. (negsuc 0, s);
  write_async = write;
  rollback_async = λ s z. s;
  foreach = walk;
  flush_sync = flush;
  truncate = truncate;
  invalid_lsn = negsuc 0;
}

pub record_log_laws : RecordLog record_log
unfolding record_log write truncate walk flush
record_log_laws = record {
  held = λ s. s.held;
  Durable = λ s m. IsFlushed s.flushed m;
  held_ascending = λ s. s.ascending;
  write_held = λ s n b. refl;
  foreach_held = λ B s n cb acc. refl;
  truncate_held = λ s n. refl;
  flush_held = λ s z. flush_keeps s z;
  flush_durable = λ s n m h. h;
  flush_all = λ s m. tt;
}
  where
    flush_keeps : (s : Records) (z : ℤ) → (flush s z).held ≡ s.held
    flush_keeps s (pos n) = refl
    flush_keeps s (negsuc n) = refl

pub held-no_records : record_log_laws.held no_records ≡ []
unfolding record_log_laws no_records
held-no_records = refl
