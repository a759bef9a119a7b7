-- ===== src/ReplicaSet.antt =====
-- ReplicaSet of lib/state_machine/replica_set.cpp, and the journal entry of
-- lib/log_store/journal_entry.h.
pub mod Writes
pub mod Journal
pub mod Requests
pub mod Storage
pub mod Tests
use home_replication.Base.{
  ℕ, ◌+◌, ◌*◌, ◌%◌, ◌^◌, Option, none, some, List, [], ◌∷◌, leb, if◌then◌else◌, length, take, drop,
}
use home_replication.Base.Exec.{Result, ok, err, bad_access, assertion, Exec, pure, ◌>>=◌, ◌>>◌}
use home_replication.Base.Int.{ℤ, pos}
use home_replication.Bytes.{Bytes, le_bytes, le_value}
use home_replication.Serializer.{overwrite}
use home_replication.Maps.{find, insert}

-- sizeof(repl_journal_entry): six fields of 2, 2, 2, 2, 16, 4 and 4 bytes without padding.
abbrev pub journal_entry_size : ℕ
journal_entry_size = 32

-- journal_type_t::DATA
abbrev pub data_code : ℕ
data_code = 0

-- The fields of a journal entry in memory, without the replica id in the 16 bytes from 8 on.
pub record ReplJournalEntry : Type 0 where
  pub major_version : ℕ
  pub minor_version : ℕ
  pub code : ℕ
  pub n_pbas : ℕ
  pub user_header_size : ℕ
  pub key_size : ℕ

-- The entry at the start of a buffer, on a little-endian host.
abbrev pub entry_of : Bytes → ReplJournalEntry
entry_of m = record {
  major_version = le_value (take 2 m);
  minor_version = le_value (take 2 (drop 2 m));
  code = le_value (take 2 (drop 4 m));
  n_pbas = le_value (take 2 (drop 6 m));
  user_header_size = le_value (take 4 (drop 24 m));
  key_size = le_value (take 4 (drop 28 m));
}

-- `total_size`, a sum of size_t that is returned as a uint32_t.
abbrev pub total_size : ReplJournalEntry → ℕ
total_size e = (journal_entry_size + e.n_pbas * 8 + e.user_header_size + e.key_size) % 2 ^ 32

-- What a write leaves in the request for the callback; `user_ctx` is an address.
pub record ReplReq : Type 0 where
  pub header : Bytes
  pub key : Bytes
  pub value : List Bytes
  pub user_ctx : ℕ
  pub lsn : ℤ

-- An assignment through a pointer into the buffer.
poke : ℕ → Bytes → Exec Bytes (Unit {0})
poke p bs m =
    if leb (p + length bs) (length m) then (ok tt, overwrite m p bs) else (err bad_access, m)

-- Steps 4 and 5 of `write`, in the buffer that was allocated.
unfoldable pub fill_entry : List ℕ → Bytes → Bytes → Exec Bytes (Unit {0})
unfolding poke
fill_entry pbas header key = do
  poke 4 (le_bytes 2 data_code)
  poke 6 (le_bytes 2 (length pbas % 2 ^ 16))
  poke 24 (le_bytes 4 (length header))
  poke 28 (le_bytes 4 (length key))
  poke journal_entry_size header
  poke (journal_entry_size + length header) key

abbrev pub finish : ReplReq → Result (Unit {0}) × Bytes → Result (ReplReq × Bytes)
finish req (ok done, buf) = ok (req, buf)
finish req (err e, buf) = err e

-- `write`: the request and the journal entry. `alloc` is nuraft::buffer::alloc, which gives bytes
-- that are whatever the memory held, or throws, and `pbas` is what `alloc_pbas` gave.
unfoldable pub write :
    (ℕ → Result Bytes) → List ℕ → Bytes → Bytes → List Bytes → ℕ → Result (ReplReq × Bytes)
write alloc pbas header key value user_ctx =
    let req : ReplReq = record {
      header = header;
      key = key;
      value = value;
      user_ctx = user_ctx;
      lsn = pos 0;
    } in
    let entry_size : ℕ = journal_entry_size + length pbas * 8 + length header + length key in
    elim (alloc entry_size) [ ok buf ↦ finish req (fill_entry pbas header key buf) | err e ↦ err e ]

-- The object: its stores are of the types that the backend makes.
pub record ReplicaSet (Sms Rls L : Type 0) : Type 0 where
  pub state_store : Sms
  pub data_journal : Rls
  pub listener : Option L
  pub lsn_req_map : List (ℕ × ReplReq)
  pub group_id : Bytes

module _ {Sms Rls L : Type 0} where
  unfoldable pub replica_set : Bytes → Sms → Rls → ReplicaSet Sms Rls L
  replica_set group_id sm_store log_store = record {
    state_store = sm_store;
    data_journal = log_store;
    listener = none;
    lsn_req_map = [];
    group_id = group_id;
  }

  unfoldable pub attach_listener : L → ReplicaSet Sms Rls L → ReplicaSet Sms Rls L
  attach_listener listener rs = record rs { listener = some listener }

  -- The key is an int64_t, which stands as its bit pattern. The assertion comes after the insertion.
  unfoldable pub after_precommit_in_leader : ℕ → ReplReq → Exec (ReplicaSet Sms Rls L) (Unit {0})
  after_precommit_in_leader log_idx req rs =
      let inserted : ReplicaSet Sms Rls L = record rs {
        lsn_req_map = insert log_idx req rs.lsn_req_map;
      } in
      elim (find log_idx rs.lsn_req_map) [
        | none ↦ (ok tt, inserted)
        | some other ↦ (err assertion, inserted)
      ]
