-- ===== src/Backend/Restart.antt =====
-- The start of HomeReplicationBackend on a device that has superblocks: homestore's meta service
-- calls the handler that the constructor of lib/service/home_repl_backend.cpp registers, once for
-- each superblock of type "replica_set".
use home_replication.Base.{
  some, [], ℕ, if◌then◌else◌, ◌≡◌, Bool, true, Option, none, ◌==◌, List, All, length, ==-refl, inl,
  inr, Bool-cases,
}
use mathlib.Core.Path.{subst}
use home_replication.Base.Int.{pos}
use home_replication.Base.Exec.{Result, ok}
use home_replication.Bytes.{Bytes}
use home_replication.Maps.{find}
use home_replication.HomeStore.{HomeLogStore}
use home_replication.Nuraft.{Nuraft}
use home_replication.RaftLog.{construct}
use home_replication.StateStore.{
  HomeRsSuperblk, open_existing, replica_set_sb_magic, replica_set_sb_version,
}
use home_replication.Service.{ReplicationService, Svc}
use home_replication.Service.Sets.{made, with_set, IsWell, found_run}
use home_replication.Service.Several.{IsDistinct, add_all, Added, add_all-Added, stores_at}
use home_replication.Backend.{SmObject, RaftObject, rs_super_blk_found}

abbrev pub IsValid : HomeRsSuperblk → Type 0
IsValid sb = (sb.magic ≡ replica_set_sb_magic) × (sb.version ≡ replica_set_sb_version)

abbrev pub uuid_of : HomeRsSuperblk → ℕ
uuid_of sb = sb.uuid

module _ {S T L : Type 0} (sms_log : HomeLogStore S) (st : HomeLogStore T) (nu : Nuraft)
    (ndebug : Bool) (to_string : ℕ → Bytes) (on_rs_init : ℕ → Result L) where
  abbrev pub HomeService : Type 0
  HomeService = ReplicationService (SmObject S) (RaftObject T) L

  -- The handler is called for one superblock after the other.
  unfoldable pub found_all : List HomeRsSuperblk → Svc (SmObject S) (RaftObject T) L (Unit {0})
  found_all sbs = add_all (rs_super_blk_found sms_log st nu ndebug to_string on_rs_init) sbs

  -- The state store of a superblock: it waits for the free pba store with the superblock's id.
  abbrev pub sm_store_of : HomeRsSuperblk → SmObject S
  sm_store_of sb = (
    record {
      free_pba_store = none;
      sb = sb;
      sb_on_disk = some sb;
      sb_in_mem = sb;
      last_write_lsn = pos 0;
    },
    some sb.free_pba_store_id,
  )

  -- The id of the journal that is to be opened; UINT32_MAX stands for a new journal.
  abbrev pub journal_asked : ℕ → Option ℕ
  journal_asked id = if id == 4294967295 then none else some id

  -- The log of a superblock: it waits for the journal with the superblock's id.
  abbrev pub log_store_of : HomeRsSuperblk → RaftObject T
  log_store_of sb = (
    record {
      logstore_id = none;
      log_store = none;
      dummy_log_entry = record { term = 0; val_type = nu.app_log; buf = [] };
    },
    journal_asked sb.data_journal_id,
  )

  -- What the start leaves of a service.
  abbrev pub Started : HomeService → HomeService → List HomeRsSuperblk → Type 0
  Started svc svc' sbs = Added uuid_of sm_store_of log_store_of to_string on_rs_init svc svc' sbs

  abbrev pub stores_found : ℕ → HomeService → Option (SmObject S × RaftObject T × Bytes)
  stores_found uuid svc = stores_at uuid_of sm_store_of log_store_of to_string on_rs_init uuid svc

  valid_run :
      (sb : HomeRsSuperblk) (l : L) (svc : HomeService)
      → IsValid sb
      → find sb.uuid svc.rs_map ≡ none
      → on_rs_init (length svc.objects) ≡ ok l
      → rs_super_blk_found sms_log st nu ndebug to_string on_rs_init sb svc ≡ (
        ok tt,
        with_set svc sb.uuid (made (to_string sb.uuid) (sm_store_of sb) (log_store_of sb) l),
      )
  unfolding rs_super_blk_found construct open_existing
  valid_run sb l svc valid fresh init =
      let magic : (sb.magic == replica_set_sb_magic) ≡ true =
        subst (λ (z : ℕ). (sb.magic == z) ≡ true) valid.0 (==-refl sb.magic) in
      let version : (sb.version == replica_set_sb_version) ≡ true =
        subst (λ (z : ℕ). (sb.version == z) ≡ true) valid.1 (==-refl sb.version) in
      let ran =
        found_run to_string on_rs_init svc sb.uuid (sm_store_of sb) (log_store_of sb) l init ndebug
          fresh in
      elim (Bool-cases ndebug) [
        | inl release ↦ rw release (rw release at ran)
        | inr asserts ↦ rw (magic, version, asserts) (rw asserts at ran)
      ]

  -- Take a service whose map is in order with its names, and superblocks of this magic and version,
  -- of distinct uuids that the map does not have, where the user's callback makes a listener for
  -- every set. The handler of the backend, called for one superblock after the other, succeeds with
  -- and without assertions. Then the map is again in order with its names, and a lookup of the uuid
  -- of each superblock gives a set with the uuid's name, a state store with the superblock for
  -- which the log store with the superblock's free pba store id is asked to be opened, a log for
  -- which the one with its journal id is (none where that is UINT32_MAX), and the listener; what
  -- the map had is still found, with the same objects, and a uuid without a superblock is found
  -- only if it was before.
  pub restart_lem :
      (sbs : List HomeRsSuperblk) (svc : HomeService)
      → ((p : ℕ) → (l : L) × (on_rs_init p ≡ ok l))
      → IsWell to_string svc
      → All IsValid sbs
      → IsDistinct uuid_of sbs
      → All (λ (sb : HomeRsSuperblk). find sb.uuid svc.rs_map ≡ none) sbs
      → (svc' : HomeService) × (found_all sbs svc ≡ (ok tt, svc')) × Started svc svc' sbs
  unfolding found_all
  restart_lem sbs svc inits well valid distinct fresh =
      add_all-Added uuid_of sm_store_of log_store_of to_string on_rs_init
        (rs_super_blk_found sms_log st nu ndebug to_string on_rs_init) IsValid valid_run inits sbs
        svc well valid distinct fresh
