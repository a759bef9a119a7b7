-- ===== src/HomeStore/Device.antt =====
-- A HomeLogStore in memory that forgets in a crash what was not flushed, which shows that the laws
-- of a durable log can be met: the records below `on_device` outlive the process.
use Prim.Native.Nat.{max, min}
use home_replication.Base.{ℕ, suc, ◌<◌, ◌≡◌, ◌∙◌, refl, ap, arith}
use home_replication.Base.Int.{ℤ, pos, negsuc}
use home_replication.HomeStore.{HomeLogStore, AppendLog, DurableLog}
use home_replication.HomeStore.View.{LogView, next, kept, at-kept}
use home_replication.HomeStore.Memory.{memory_log, memory_log_laws, view-memory_log}

pub record Device : Type 0 where
  pub shown : LogView
  pub on_device : ℕ

flush : Device → ℤ → Device
flush s (pos n) = record s { on_device = max s.on_device (min (suc n) (next s.shown)) }
flush s (negsuc n) = record s { on_device = next s.shown }

reopen : Device → Device
reopen s = record s { shown = kept s.shown s.on_device }

pub device_log : HomeLogStore Device
unfolding flush
device_log = record {
  get_store_id = λ s. 7;
  get_contiguous_issued_seq_num = λ s z. memory_log.get_contiguous_issued_seq_num s.shown z;
  truncated_upto = λ s. memory_log.truncated_upto s.shown;
  read_sync = λ s z. memory_log.read_sync s.shown z;
  append_async = λ s b. (
    (memory_log.append_async s.shown b).0,
    record s { shown = (memory_log.append_async s.shown b).1 },
  );
  write_async = λ s z b. s;
  rollback_async = λ s z. record {
    shown = memory_log.rollback_async s.shown z;
    on_device = min s.on_device (next (memory_log.rollback_async s.shown z));
  };
  foreach = λ B s z cb acc. memory_log.foreach B s.shown z cb acc;
  flush_sync = flush;
  truncate = λ s z. record s { shown = memory_log.truncate s.shown z };
  invalid_lsn = negsuc 0;
}

flush-shown : (s : Device) (z : ℤ) → (flush s z).shown ≡ s.shown
unfolding flush
flush-shown s (pos n) = refl
flush-shown s (negsuc n) = refl

pub device_log_laws : AppendLog device_log
unfolding device_log
device_log_laws = record {
  view = λ s. memory_log_laws.view s.shown;
  issued = λ s. memory_log_laws.issued s.shown;
  truncated = λ s. memory_log_laws.truncated s.shown;
  read_held = λ s n b h. memory_log_laws.read_held s.shown n b h;
  read_missing = λ s n h. memory_log_laws.read_missing s.shown n h;
  read_negative = λ s n. memory_log_laws.read_negative s.shown n;
  append_number = λ s b. memory_log_laws.append_number s.shown b;
  append_view = λ s b. memory_log_laws.append_view s.shown b;
  rollback_view = λ s n lo hi. memory_log_laws.rollback_view s.shown n lo hi;
  foreach_visit = λ B s n cb acc lo. memory_log_laws.foreach_visit B s.shown n cb acc lo;
  flush_view = λ s z. ap memory_log_laws.view (flush-shown s z);
  truncate_view = λ s n h. memory_log_laws.truncate_view s.shown n h;
}

pub view-device_log : (s : Device) → device_log_laws.view s ≡ s.shown
unfolding device_log_laws
view-device_log s = view-memory_log s.shown

pub device_durable : DurableLog device_log_laws
unfolding device_log flush reopen
device_durable = record {
  flushed = λ s. s.on_device;
  reopened = reopen;
  flush_upto = λ s n lt. upto s n (rw (view-device_log s) at lt);
  flush_all = λ s. rw (view-device_log s) (omega arith);
  reopened_held = λ s n b lt held.
      rw (view-device_log (reopen s))
        (at-kept s.shown s.on_device n lt ∙ (rw (view-device_log s) at held));
}
  where
    upto :
        (s : Device) (n : ℕ) → n < next s.shown → n < max s.on_device (min (suc n) (next s.shown))
    upto s n lt = omega arith
