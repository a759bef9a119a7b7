-- ===== src/RaftLog/Durable/Tests.antt =====
-- Crashes of the process at a log in memory that forgets what was not flushed. It holds the raft
-- indexes 2 and 3, of which nothing is on the device at first.
use home_replication.Base.{◌≡◌, refl, List, [], ◌∷◌, some, true, arith}
use home_replication.Base.Exec.{ok}
use home_replication.HomeStore.Device.{
  Device, device_log, device_log_laws, device_durable, view-device_log,
}
use home_replication.Nuraft.Memory.{memory_nuraft, memory_format, memory_buffers}
use home_replication.RaftLog
use home_replication.RaftLog.{HomeRaftLogStore, entry_at}
use home_replication.RaftLog.Represents.{opened, Represents}
use home_replication.RaftLog.Tests.{
  entry, dummy, two, two_logged, entry-IsEntry, dummy-IsEntry, two-entries,
}
use home_replication.RaftLog.Calls.{
  append, write_at, Call, promised, promised_run, AdmitsAll, call_run,
}
use home_replication.RaftLog.Durable.{Reopens, flush_durable}
use home_replication.RaftLog.Pack.{apply_pack}
use home_replication.RaftLog.Pack.Durable.{apply_pack_durable}
use home_replication.RaftLog.Pack.Tests.{one_packed, one_packed-IsPack}

abbrev device : Device
device = record { shown = two_logged; on_device = 0 }

abbrev device_at : Device → HomeRaftLogStore Device
device_at s = opened (some 7) dummy s

device-Represents : Represents memory_nuraft device_log_laws device 1 two
device-Represents = record {
  shows = view-device_log device;
  entries = two-entries;
  bounded = omega arith;
}

-- One entry is appended and the second overwritten.
abbrev calls : List Call
calls = append (entry 7) ∷ write_at 2 (entry 8) ∷ []

calls-AdmitsAll : AdmitsAll memory_nuraft dummy calls (record { first = 1; log = two })
unfolding promised
calls-AdmitsAll = (
  (entry-IsEntry 7 (omega arith), omega arith),
  ((entry-IsEntry 8 (omega arith), omega arith, omega arith, omega arith), tt),
)

flush_durable_example :
    (s' : Device) × (r : HomeRaftLogStore Device) × (RaftLog.flush device_log memory_nuraft
        (call_run device_log memory_nuraft calls (device_at device)).1
      ≡ (ok true, device_at s'))
    × Reopens device_log memory_nuraft device_log_laws memory_format device_durable 7 s' r
    × (entry_at device_log memory_nuraft 3 r ≡ (ok (entry 8), r))
unfolding promised promised_run
flush_durable_example =
    flush_durable device_log memory_nuraft device_log_laws memory_format device_durable (some 7)
      dummy dummy-IsEntry calls device (record { first = 1; log = two }) device-Represents
      calls-AdmitsAll 7 2 (entry 8) (omega arith) refl

apply_pack_durable_example :
    (s' : Device) × (r : HomeRaftLogStore Device) × (apply_pack device_log memory_nuraft 3
        one_packed
        (device_at device)
      ≡ (ok tt, device_at s'))
    × Reopens device_log memory_nuraft device_log_laws memory_format device_durable 7 s' r
    × (entry_at device_log memory_nuraft 3 r ≡ (ok (entry 9), r))
apply_pack_durable_example =
    apply_pack_durable device_log memory_nuraft device_log_laws memory_format memory_buffers
      device_durable (some 7) dummy device 1 two (entry 9 ∷ []) one_packed device-Represents
      one_packed-IsPack 2 (omega arith) (omega arith) (omega arith) 7 0 (entry 9) refl
