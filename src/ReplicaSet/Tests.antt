-- ===== src/ReplicaSet/Tests.antt =====
-- The journal entry of a write with two pbas, and a replica set with one request.
use home_replication.Base.{
  ltb, if◌then◌else◌, ℕ, ◌+◌, ◌≡◌, refl, some, none, List, [], ◌∷◌, arith, length, replicate, take,
  drop,
}
use home_replication.Base.Exec.{Result, ok, err, assertion, overflow_error}
use home_replication.Base.Int.{pos}
use home_replication.Bytes.{Bytes}
use home_replication.HomeStore.Records.{IsAscending}
use home_replication.Maps.{find}
use home_replication.Serializer.Steps.{slice}
use home_replication.ReplicaSet.{
  ReplicaSet, ReplReq, total_size, entry_of, data_code, write, after_precommit_in_leader,
}
use home_replication.ReplicaSet.Journal.{journal_lem, journal_unset}
use home_replication.ReplicaSet.Requests.{precommit_lem}

-- Memory that held the byte 0xAB everywhere.
abbrev alloc : ℕ → Result Bytes
alloc n = if ltb n 100 then ok (replicate n 0xAB) else err overflow_error

abbrev memory : Bytes
memory = replicate 51 0xAB

abbrev pbas : List ℕ
pbas = 100 ∷ 200 ∷ []

abbrev request : ReplReq
request = record { header = 1 ∷ 2 ∷ []; key = 3 ∷ []; value = []; user_ctx = 9; lsn = pos 0 }

journal_lem_example :
    (b : Bytes) × (write alloc pbas (1 ∷ 2 ∷ []) (3 ∷ []) [] 9 ≡ ok (request, b))
    × (length b ≡ total_size (entry_of b))
    × ((entry_of b).code ≡ data_code)
    × ((entry_of b).n_pbas ≡ 2)
    × (slice b 32 (entry_of b).user_header_size ≡ 1 ∷ 2 ∷ [])
    × (slice b (32 + (entry_of b).user_header_size) (entry_of b).key_size ≡ 3 ∷ [])
journal_lem_example =
    journal_lem alloc memory pbas (1 ∷ 2 ∷ []) (3 ∷ []) [] 9 refl refl (omega arith) (omega arith)

journal_unset_example :
    (b : Bytes) × (write alloc pbas (1 ∷ 2 ∷ []) (3 ∷ []) [] 9 ≡ ok (request, b))
    × (take 4 b ≡ take 4 memory)
    × (slice b 8 16 ≡ slice memory 8 16)
    × (drop 35 b ≡ drop 35 memory)
journal_unset_example = journal_unset alloc memory pbas (1 ∷ 2 ∷ []) (3 ∷ []) [] 9 refl refl

abbrev set : ReplicaSet ℕ ℕ ℕ
set = record {
  state_store = 1;
  data_journal = 2;
  listener = none;
  lsn_req_map = (4, request) ∷ [];
  group_id = [];
}

at_4 : find 4 set.lsn_req_map ≡ some request
unfolding find
at_4 = refl

not_at_5 : find 5 set.lsn_req_map ≡ none
unfolding find
not_at_5 = refl

precommit_lem_example :
    (rs : ReplicaSet ℕ ℕ ℕ) × (after_precommit_in_leader 4 request set ≡ (err assertion, rs))
    × (find 4 rs.lsn_req_map ≡ some request)
    × (find 5 rs.lsn_req_map ≡ none)
    × IsAscending rs.lsn_req_map
unfolding find
precommit_lem_example = precommit_lem set 4 5 request (tt, tt) (λ (e : 5 ≡ 4). omega arith)
