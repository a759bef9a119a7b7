-- ===== src/RaftLog/Pack/Tests.antt =====
-- `pack` and `apply_pack` at a log in memory.
use home_replication.Base.{
  ℕ, suc, ◌^◌, ◌<◌, ◌≡◌, refl, ◌++◌, List, [], ◌∷◌, map, some, All, arith, length, replicate,
}
use home_replication.Base.Int.{pos}
use home_replication.Base.Exec.{Result, ok, err, overflow_error}
use home_replication.Bytes.{le_bytes}
use home_replication.HomeStore.View.{LogView}
use home_replication.HomeStore.Memory.{memory_log, memory_log_laws, view-memory_log}
use home_replication.Nuraft.{LogEntry}
use home_replication.Nuraft.Memory.{Block, memory_nuraft, memory_buffers, written-memory_buffers}
use home_replication.RaftLog.{append}
use home_replication.RaftLog.Pack.{pack, apply_pack, fill_upto_by}
use home_replication.RaftLog.Pack.Rounds.{counted, fill_upto_ends}
use home_replication.RaftLog.Codec.{IsEntry}
use home_replication.RaftLog.Pack.Layout.{framed, IsSmall}
use home_replication.RaftLog.Pack.Unpack.{IsPack}
use home_replication.RaftLog.Pack.Transfer.{apply_pack_lem, apply_pack_gap, pack_transfer}
use home_replication.RaftLog.Pack.Exact.{pack_exact, pack_large}
use home_replication.RaftLog.Pack.Room.{IsPacked}
use home_replication.RaftLog.Tests.{
  entry, dummy, two, two_logged, empty_log, log_at, Shows, entry-IsEntry, two_logged-Shows,
  empty_log-Shows,
}

two-IsSmall : All IsSmall (map memory_nuraft.serialize two)
unfolding le_bytes
two-IsSmall = (omega arith, (omega arith, tt))

-- One entry of 125 bytes in all.
abbrev wide : LogEntry
wide = record { term = 5; val_type = 1; buf = replicate 116 0 }

abbrev wide_logged : LogView
wide_logged = record { first = 0; entries = map memory_nuraft.serialize (wide ∷ []) }

wide-IsEntry : IsEntry memory_nuraft wide
unfolding le_bytes
wide-IsEntry = record { term_fits = omega arith; type_fits = omega arith; size_fits = omega arith }

wide_logged-Shows : Shows wide_logged 0 (wide ∷ [])
wide_logged-Shows = record {
  shows = view-memory_log _;
  entries = (wide-IsEntry, tt);
  bounded = omega arith;
}

wide_size : length (memory_nuraft.serialize wide) ≡ 125
unfolding le_bytes
wide_size = refl

abbrev pub one_packed : Block
one_packed = record {
  front = le_bytes 4 1 ++ framed (memory_nuraft.serialize (entry 9) ∷ []);
  back = [];
  size = 132;
}

entry_size : length (memory_nuraft.serialize (entry 9)) < 2 ^ 31
unfolding le_bytes
entry_size = omega arith

pub one_packed-IsPack : IsPack memory_buffers one_packed (entry 9 ∷ [])
one_packed-IsPack = record {
  packed = written-memory_buffers one_packed;
  few = omega arith;
  entries = (entry-IsEntry 9 (omega arith), tt);
  small = (entry_size, tt);
}

apply_pack_lem_example :
    (s' : LogView) × (apply_pack memory_log memory_nuraft 3 one_packed (log_at two_logged)
      ≡ (ok tt, log_at s'))
    × Shows s' 1 (entry 5 ∷ entry 9 ∷ [])
apply_pack_lem_example =
    apply_pack_lem memory_log memory_nuraft memory_log_laws memory_buffers (some 7) dummy two_logged
      1 two (entry 9 ∷ []) one_packed two_logged-Shows one_packed-IsPack 2 (omega arith)
      (omega arith) (omega arith)

apply_pack_gap_example :
    (s' : LogView) × (apply_pack memory_log memory_nuraft 8 one_packed (log_at two_logged)
      ≡ (ok tt, log_at s'))
    × Shows s' 1 (entry 5 ∷ entry 6 ∷ entry 9 ∷ [])
apply_pack_gap_example =
    apply_pack_gap memory_log memory_nuraft memory_log_laws memory_buffers (some 7) dummy two_logged
      1 two (entry 9 ∷ []) one_packed two_logged-Shows one_packed-IsPack 7 (omega arith)
      (omega arith) (omega arith)

pack_transfer_example :
    (b : Block) × (t' : LogView) × (pack memory_log memory_nuraft 2 (pos 2) (log_at two_logged)
      ≡ (ok b, log_at two_logged))
    × (apply_pack memory_log memory_nuraft 4 b (log_at empty_log) ≡ (ok tt, log_at t'))
    × Shows t' 3 two
pack_transfer_example =
    pack_transfer memory_log memory_nuraft memory_log_laws memory_buffers (some 7) dummy two_logged
      empty_log 1 3 two [] 1 2 3 two_logged-Shows empty_log-Shows (omega arith) (omega arith)
      (omega arith) two-IsSmall (omega arith) (omega arith) (omega arith)

pack_exact_example :
    (r : Result Block) × (pack memory_log memory_nuraft 2 (pos 2) (log_at two_logged)
      ≡ (r, log_at two_logged))
    × IsPacked memory_log memory_nuraft memory_buffers 2 (map memory_nuraft.serialize two) r
unfolding le_bytes
pack_exact_example =
    pack_exact memory_log memory_nuraft memory_log_laws memory_buffers (some 7) dummy two_logged 1
      two 1 2 two_logged-Shows (omega arith) (omega arith) (omega arith)
      (omega arith, (omega arith, tt))

-- Entries of 121 and 520 bytes in all.
abbrev filled : ℕ → LogEntry
filled n = record { term = 5; val_type = 1; buf = replicate n 0 }

abbrev large : List LogEntry
large = filled 112 ∷ filled 511 ∷ []

abbrev large_logged : LogView
large_logged = record { first = 0; entries = map memory_nuraft.serialize large }

filled_size :
    (n : ℕ)
    → length (memory_nuraft.serialize (filled n))
      ≡ suc (suc (suc (suc (suc (suc (suc (suc (suc (length (replicate {A = ℕ} n 0))))))))))
unfolding le_bytes
filled_size n = refl

filled-IsEntry :
    (n : ℕ) → length (replicate {A = ℕ} n 0) < 2 ^ 31 → IsEntry memory_nuraft (filled n)
filled-IsEntry n h = record {
  term_fits = omega arith;
  type_fits = omega arith;
  size_fits = omega (arith, filled_size n);
}

large_logged-Shows : Shows large_logged 0 large
large_logged-Shows = record {
  shows = view-memory_log _;
  entries = (filled-IsEntry 112 (omega arith), (filled-IsEntry 511 (omega arith), tt));
  bounded = omega arith;
}

pack_large_example :
    pack memory_log memory_nuraft 1 (pos 2) (log_at large_logged)
    ≡ (err overflow_error, log_at large_logged)
pack_large_example =
    pack_large memory_log memory_nuraft memory_log_laws memory_buffers (some 7) dummy large_logged 0
      large [] (filled 112) (filled 511) 0 large_logged-Shows (omega arith) (omega arith) refl
      (omega (arith, filled_size 112)) (omega (arith, filled_size 112))
      (omega (arith, filled_size 511)) (omega (arith, filled_size 511))

-- Two dummy entries before the slot 6.
fill_upto_ends_example :
    fill_upto_by memory_log memory_nuraft
      (append memory_log memory_nuraft)
      3
      4
      6
      (log_at two_logged)
    ≡ counted memory_log memory_nuraft (append memory_log memory_nuraft) 2 7 (log_at two_logged)
fill_upto_ends_example =
    fill_upto_ends memory_log memory_nuraft (append memory_log memory_nuraft) 4 6
      (log_at two_logged) (omega arith) (omega arith)
