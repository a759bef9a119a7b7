-- ===== src/Endian/Tests.antt =====
-- The theorem about the encodings at a concrete number.
use home_replication.Base.{◌≡◌, arith}
use home_replication.Endian.{little, big, enc, dec}
use home_replication.Endian.Hosts.{in_memory, from_memory, four, portable}

portable_example : dec big 4 (from_memory big (in_memory little 4 (enc little 4 258))) ≡ 258
portable_example = portable little big four 258 (omega arith)
