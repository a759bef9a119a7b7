-- ===== src/HomeStore/Memory.antt =====
-- A HomeLogStore in memory, which shows that the laws of an appended log can be met, and on which
-- the tests run: its state is the view itself.
use home_replication.Base.{ℕ, suc, ◌≡◌, refl, Option, none, some, arith}
use home_replication.Base.Int.{ℤ, pos, negsuc, pos_part, last_of, ◌+ℤ◌}
use home_replication.Base.Exec.{Result, ok, err, out_of_range}
use home_replication.Bytes.{Bytes}
use home_replication.HomeStore.{HomeLogStore, AppendLog, Visitor, visit}
use home_replication.HomeStore.View.{LogView, next, at, appended, kept, cut, from}

abbrev found : Option Bytes → Result Bytes
found none = err out_of_range
found (some b) = ok b

abbrev read : LogView → ℤ → Result Bytes
read v (pos n) = found (at v n)
read v (negsuc n) = err out_of_range

abbrev walk : (B : Type 0) → LogView → ℤ → Visitor B → B → B
walk B v (pos n) cb acc = visit cb n (from v n) acc
walk B v (negsuc n) cb acc = acc

abbrev truncate_upto : LogView → ℤ → LogView
truncate_upto v (pos n) = cut v (suc n)
truncate_upto v (negsuc n) = v

abbrev pub memory_log : HomeLogStore LogView
memory_log = record {
  get_store_id = λ v. 7;
  get_contiguous_issued_seq_num = λ v z. last_of (next v);
  truncated_upto = λ v. last_of v.first;
  read_sync = read;
  append_async = λ v b. (pos (next v), appended v b);
  write_async = λ v z b. v;
  rollback_async = λ v z. kept v (pos_part (z +ℤ pos 1));
  foreach = walk;
  flush_sync = λ v z. v;
  truncate = truncate_upto;
  invalid_lsn = negsuc 0;
}

rollback_number : (n : ℕ) → pos_part (last_of n +ℤ pos 1) ≡ n
rollback_number n = ground arith

pub memory_log_laws : AppendLog memory_log
memory_log_laws = record {
  view = λ v. v;
  issued = λ v. refl;
  truncated = λ v. refl;
  read_held = λ v n b h. rw h;
  read_missing = λ v n h. rw h;
  read_negative = λ v n. refl;
  append_number = λ v b. refl;
  append_view = λ v b. refl;
  rollback_view = λ v n lo hi. rw rollback_number;
  foreach_visit = λ B v n cb acc lo. refl;
  flush_view = λ v z. refl;
  truncate_view = λ v n h. refl;
}

pub view-memory_log : (v : LogView) → memory_log_laws.view v ≡ v
unfolding memory_log_laws
view-memory_log v = refl
