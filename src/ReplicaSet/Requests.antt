-- ===== src/ReplicaSet/Requests.antt =====
-- The requests that wait for their log index, in after_precommit_in_leader.
use home_replication.Base.{ℕ, ◌≡◌, ◌≢◌, Option, none, some, inl, inr, Option-cases}
use home_replication.Base.Exec.{Result, ok, err, assertion}
use home_replication.HomeStore.Records.{IsAscending}
use home_replication.Maps.{
  find, find-insert_new, find-insert_old, find-insert_other, insert-IsAscending, insert,
}
use home_replication.ReplicaSet.{ReplicaSet, ReplReq, after_precommit_in_leader}

-- What `assert(happened)` gives, and the request that is then under the log index.
abbrev pub asserted : Option ReplReq → Result (Unit {0})
asserted none = ok tt
asserted (some other) = err assertion

abbrev pub kept : ReplReq → Option ReplReq → ReplReq
kept req none = req
kept req (some other) = other

module _ {Sms Rls L : Type 0} where
  precommit_new :
      (rs : ReplicaSet Sms Rls L) (log_idx i : ℕ) (req : ReplReq)
      → IsAscending rs.lsn_req_map
      → find log_idx rs.lsn_req_map ≡ none
      → i ≢ log_idx
      → (rs' : ReplicaSet Sms Rls L) × (after_precommit_in_leader log_idx req rs ≡ (ok tt, rs'))
        × (find log_idx rs'.lsn_req_map ≡ some req)
        × (find i rs'.lsn_req_map ≡ find i rs.lsn_req_map)
        × IsAscending rs'.lsn_req_map
  unfolding after_precommit_in_leader
  precommit_new rs log_idx i req asc h ne = (
    record rs { lsn_req_map = insert log_idx req rs.lsn_req_map },
    rw (after_precommit_in_leader, h),
    find-insert_new log_idx req rs.lsn_req_map h,
    find-insert_other i log_idx req rs.lsn_req_map ne,
    insert-IsAscending log_idx req rs.lsn_req_map asc,
  )

  precommit_duplicate :
      (rs : ReplicaSet Sms Rls L) (log_idx i : ℕ) (req other : ReplReq)
      → IsAscending rs.lsn_req_map
      → find log_idx rs.lsn_req_map ≡ some other
      → i ≢ log_idx
      → (rs' : ReplicaSet Sms Rls L) × (after_precommit_in_leader log_idx req rs
          ≡ (err assertion, rs'))
        × (find log_idx rs'.lsn_req_map ≡ some other)
        × (find i rs'.lsn_req_map ≡ find i rs.lsn_req_map)
        × IsAscending rs'.lsn_req_map
  unfolding after_precommit_in_leader
  precommit_duplicate rs log_idx i req other asc h ne = (
    record rs { lsn_req_map = insert log_idx req rs.lsn_req_map },
    rw (after_precommit_in_leader, h),
    find-insert_old log_idx req other rs.lsn_req_map asc h,
    find-insert_other i log_idx req rs.lsn_req_map ne,
    insert-IsAscending log_idx req rs.lsn_req_map asc,
  )

  -- On a replica set whose map of requests is in order, `after_precommit_in_leader` succeeds where
  -- the log index has no request, and puts the request there; where it has one, the assertion fails
  -- and the first request stays. In both cases another index has what it had, and the map is in
  -- order.
  pub precommit_lem :
      (rs : ReplicaSet Sms Rls L) (log_idx i : ℕ) (req : ReplReq)
      → IsAscending rs.lsn_req_map
      → i ≢ log_idx
      → (rs' : ReplicaSet Sms Rls L) × (after_precommit_in_leader log_idx req rs
          ≡ (asserted (find log_idx rs.lsn_req_map), rs'))
        × (find log_idx rs'.lsn_req_map ≡ some (kept req (find log_idx rs.lsn_req_map)))
        × (find i rs'.lsn_req_map ≡ find i rs.lsn_req_map)
        × IsAscending rs'.lsn_req_map
  precommit_lem rs log_idx i req asc ne = elim (Option-cases (find log_idx rs.lsn_req_map)) [
    | inl h ↦ rw h (precommit_new rs log_idx i req asc h ne)
    | inr (other, h) ↦ rw h (precommit_duplicate rs log_idx i req other asc h ne)
  ]
