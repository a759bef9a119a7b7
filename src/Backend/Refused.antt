-- ===== src/Backend/Refused.antt =====
-- A superblock that stops the start of HomeReplicationBackend, in a build with assertions.
use home_replication.Base.{
  ℕ, ◌≡◌, ◌≢◌, ◌∙◌, refl, arith, Bool, false, ◌&&◌, none, some, ◌==◌, List, [], ◌∷◌, ◌++◌, All, inl,
  inr, ◌⊎◌, Bool-cases,
}
use home_replication.Base.Exec.{Result, Result-cases, ok, err, assertion, ◌>>◌}
use home_replication.Bytes.{Bytes}
use home_replication.Maps.{find}
use home_replication.HomeStore.{HomeLogStore}
use home_replication.Nuraft.{Nuraft}
use home_replication.StateStore.{HomeRsSuperblk, replica_set_sb_magic, replica_set_sb_version}
use home_replication.Service.{Svc, lookup_replica_set, on_replica_store_found}
use home_replication.Service.Sets.{IsWell}
use home_replication.Backend.{SmObject, RaftObject, rs_super_blk_found}
use home_replication.Service.Several.{IsDistinct, add_all}
use home_replication.Backend.Restart.{
  HomeService, IsValid, uuid_of, found_all, Started, restart_lem,
}

module _ {S T L : Type 0} (sms_log : HomeLogStore S) (st : HomeLogStore T) (nu : Nuraft)
    (ndebug : Bool) (to_string : ℕ → Bytes) (on_rs_init : ℕ → Result L) where
  abbrev Home : Type 0
  Home = HomeService sms_log st nu ndebug to_string on_rs_init

  abbrev Starts : Home → Home → List HomeRsSuperblk → Type 0
  Starts svc svc' sbs = Started sms_log st nu ndebug to_string on_rs_init svc svc' sbs

  abbrev started : List HomeRsSuperblk → Svc (SmObject S) (RaftObject T) L (Unit {0})
  started sbs = found_all sms_log st nu ndebug to_string on_rs_init sbs

  found_all-append :
      (xs ys : List HomeRsSuperblk) (svc : Home)
      → started (xs ++ ys) svc ≡ (started xs >> started ys) svc
  unfolding found_all add_all
  found_all-append [] ys svc = refl
  found_all-append (x ∷ xs) ys svc =
      let here = rs_super_blk_found sms_log st nu ndebug to_string on_rs_init x svc in
      elim (Result-cases here.0) [
        | inl (done, ran) ↦ rw ran (found_all-append xs ys here.1)
        | inr (e, threw) ↦ rw threw refl
      ]

  -- The superblock is not of this version of the program, or of a uuid that the service has.
  abbrev pub IsRefused : Home → HomeRsSuperblk → Type 0
  IsRefused svc sb =
      (sb.magic ≢ replica_set_sb_magic)
      ⊎ (sb.version ≢ replica_set_sb_version)
      ⊎ ((p : ℕ) × (find sb.uuid svc.rs_map ≡ some p))

  existing_run :
      (uuid p : ℕ) (sm : SmObject S) (log : RaftObject T) (svc : Home)
      → find uuid svc.rs_map ≡ some p
      → on_replica_store_found false to_string on_rs_init uuid sm log svc ≡ (err assertion, svc)
  unfolding on_replica_store_found lookup_replica_set
  existing_run uuid p sm log svc there = rw there refl

  refused_run :
      (sb : HomeRsSuperblk) (svc : Home)
      → ndebug ≡ false
      → IsRefused svc sb
      → rs_super_blk_found sms_log st nu ndebug to_string on_rs_init sb svc ≡ (err assertion, svc)
  unfolding rs_super_blk_found
  refused_run sb svc asserts (inl other) = rw asserts (ground arith)
  refused_run sb svc asserts (inr (inl other)) = rw asserts (ground arith)
  refused_run sb svc asserts (inr (inr (p, there))) =
      elim (Bool-cases (sb.magic == replica_set_sb_magic && sb.version == replica_set_sb_version)) [
        | inl valid ↦ rw (asserts, valid) (existing_run sb.uuid p _ _ svc there)
        | inr invalid ↦ rw (asserts, invalid) refl
      ]

  IsRefused-kept :
      (svc svc' : Home) (sbs : List HomeRsSuperblk) (sb : HomeRsSuperblk)
      → Starts svc svc' sbs
      → IsRefused svc sb
      → IsRefused svc' sb
  IsRefused-kept svc svc' sbs sb h (inl other) = inl other
  IsRefused-kept svc svc' sbs sb h (inr (inl other)) = inr (inl other)
  IsRefused-kept svc svc' sbs sb h (inr (inr (p, there))) = inr (inr (p, h.kept sb.uuid p there))

  -- In a build with assertions, let the start as `restart_lem` takes it find, behind such
  -- superblocks, one of another magic or version or of a uuid that the map has. Then the start
  -- fails with the assertion: the sets of the superblocks before it are in the map as `restart_lem`
  -- says, and those behind it are not looked at.
  pub restart_stops :
      (sbs rest : List HomeRsSuperblk) (refused : HomeRsSuperblk) (svc : Home)
      → ((p : ℕ) → (l : L) × (on_rs_init p ≡ ok l))
      → IsWell to_string svc
      → All IsValid sbs
      → IsDistinct uuid_of sbs
      → All (λ (sb : HomeRsSuperblk). find sb.uuid svc.rs_map ≡ none) sbs
      → ndebug ≡ false
      → IsRefused svc refused
      → (svc' : Home) × (started (sbs ++ (refused ∷ rest)) svc ≡ (err assertion, svc'))
        × Starts svc svc' sbs
  unfolding found_all add_all
  restart_stops sbs rest refused svc inits well valid distinct fresh asserts why =
      let (svc', run, h) =
        restart_lem sms_log st nu ndebug to_string on_rs_init sbs svc inits well valid distinct
          fresh in
      let stop = refused_run refused svc' asserts (IsRefused-kept svc svc' sbs refused h why) in
      (svc', found_all-append sbs (refused ∷ rest) svc ∙ rw (run, stop) refl, h)
