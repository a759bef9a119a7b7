-- ===== src/Backend/Create.antt =====
-- New sets of ReplicationService over HomeReplicationBackend, and a restart of the process after it.
use home_replication.Base.{
  ℕ, ◌≡◌, ◌∙◌, refl, ap, sym, Bool, Bool-cases, inl, inr, ◌==◌, Option, none, some, List, [], ◌∷◌,
  All, length, map,
}
use home_replication.Base.Int.{pos}
use home_replication.Base.Exec.{Result, ok, pure, ◌>>◌}
use home_replication.Bytes.{Bytes}
use home_replication.Maps.{find}
use home_replication.HomeStore.{HomeLogStore}
use home_replication.Nuraft.{Nuraft}
use home_replication.StateStore.{HomeRsSuperblk, create, open_existing}
use home_replication.Service.{ReplicationServiceBackend, Svc, create_replica_set}
use home_replication.Service.Sets.{made, with_set, IsWell, create_run}
use home_replication.Service.Several.{
  IsAbsent, IsDistinct, add_all, add_all-Added, of_uuid, stores_in, stores_at-of_uuid,
}
use home_replication.StateMachine.Restart.{written}
use home_replication.Backend.{SmObject, RaftObject, create_log_store, create_state_store}
use home_replication.Backend.Restart.{
  HomeService, IsValid, uuid_of, sm_store_of, log_store_of, found_all,
}
use home_replication.Backend.Order.{empty, found, started_from}

-- A call of `create_replica_set`: what `superblk::create` leaves in the superblock and the store
-- that `create_new_log_store` gives.
pub record NewSet (S : Type 0) : Type 0 where
  pub uuid : ℕ
  pub created : HomeRsSuperblk
  pub store : S

abbrev pub new_uuid : {S : Type 0} → NewSet S → ℕ
new_uuid x = x.uuid

module _ {S T L : Type 0} (sms_log : HomeLogStore S) (st : HomeLogStore T) (nu : Nuraft)
    (ndebug : Bool) (to_string : ℕ → Bytes) (on_rs_init : ℕ → Result L) where
  abbrev Home : Type 0
  Home = HomeService sms_log st nu ndebug to_string on_rs_init

  -- The service as its constructor leaves it.
  abbrev empty_service : Home
  empty_service = empty sms_log st nu ndebug to_string on_rs_init

  abbrev backend_at : NewSet S → ReplicationServiceBackend (SmObject S) (RaftObject T)
  backend_at x = record {
    create_state_store = create_state_store sms_log st nu x.created (some x.store);
    create_log_store = ok (create_log_store st nu);
  }

  create_one : NewSet S → Svc (SmObject S) (RaftObject T) L (Unit {0})
  create_one x = do create_replica_set ndebug to_string on_rs_init (backend_at x) x.uuid; pure tt

  -- The calls one after the other.
  unfoldable pub create_all : List (NewSet S) → Svc (SmObject S) (RaftObject T) L (Unit {0})
  unfolding create_one
  create_all xs = add_all create_one xs

  abbrev pub superblock_of : NewSet S → HomeRsSuperblk
  superblock_of x = written sms_log x.created x.uuid x.store

  abbrev sm_store : NewSet S → SmObject S
  sm_store x = (
    record {
      free_pba_store = some x.store;
      sb = superblock_of x;
      sb_on_disk = some (superblock_of x);
      sb_in_mem = superblock_of x;
      last_write_lsn = pos 0;
    },
    none,
  )

  abbrev log_store : NewSet S → RaftObject T
  log_store x = create_log_store st nu

  create_one_run :
      (x : NewSet S) (l : L) (svc : Home)
      → IsValid x.created
      → find x.uuid svc.rs_map ≡ none
      → on_rs_init (length svc.objects) ≡ ok l
      → create_one x svc
        ≡ (ok tt, with_set svc x.uuid (made (to_string x.uuid) (sm_store x) (log_store x) l))
  unfolding create_one create_state_store create
  create_one_run x l svc valid fresh init =
      rw
        (create_run to_string on_rs_init svc x.uuid (sm_store x) (log_store x) l init ndebug
          (backend_at x) fresh refl refl)
        refl

  all-fresh :
      (xs : List (NewSet S)) → All (λ (x : NewSet S). find x.uuid empty_service.rs_map ≡ none) xs
  unfolding find
  all-fresh [] = tt
  all-fresh (x ∷ xs) = (refl, all-fresh xs)

  abbrev superblocks : List (NewSet S) → List HomeRsSuperblk
  superblocks xs = map superblock_of xs

  superblocks-IsValid :
      (xs : List (NewSet S))
      → All (λ (x : NewSet S). IsValid x.created) xs
      → All IsValid (superblocks xs)
  superblocks-IsValid [] h = tt
  superblocks-IsValid (x ∷ xs) (h, hs) = (h, superblocks-IsValid xs hs)

  superblocks-IsAbsent :
      (uuid : ℕ) (xs : List (NewSet S))
      → IsAbsent new_uuid uuid xs
      → IsAbsent uuid_of uuid (superblocks xs)
  superblocks-IsAbsent uuid [] h = tt
  superblocks-IsAbsent uuid (x ∷ xs) (h, hs) = (h, superblocks-IsAbsent uuid xs hs)

  superblocks-IsDistinct :
      (xs : List (NewSet S)) → IsDistinct new_uuid xs → IsDistinct uuid_of (superblocks xs)
  superblocks-IsDistinct [] h = tt
  superblocks-IsDistinct (x ∷ xs) (h, hs) =
      (superblocks-IsAbsent x.uuid xs h, superblocks-IsDistinct xs hs)

  -- What the device and the users have of a set: its superblock and its name.
  abbrev Durable : Type 0
  Durable = Option (Option HomeRsSuperblk × Bytes)

  abbrev durable_of : Option (SmObject S × RaftObject T × Bytes) → Durable
  durable_of none = none
  durable_of (some (sm, log, name)) = some (sm.0.sb_on_disk, name)

  abbrev pub durable : ℕ → Home → Durable
  durable uuid svc = durable_of (found sms_log st nu ndebug to_string on_rs_init uuid svc)

  stores_of-superblocks :
      (uuid : ℕ) (xs : List (NewSet S))
      → durable_of
          (stores_in new_uuid sm_store log_store to_string on_rs_init (of_uuid new_uuid uuid xs))
        ≡ durable_of (
            stores_in uuid_of
              (sm_store_of sms_log st nu ndebug to_string on_rs_init)
              (log_store_of sms_log st nu ndebug to_string on_rs_init)
              to_string
              on_rs_init
              (of_uuid uuid_of uuid (superblocks xs)))
  unfolding of_uuid open_existing
  stores_of-superblocks uuid [] = refl
  stores_of-superblocks uuid (x ∷ xs) = elim (Bool-cases (uuid == x.uuid)) [
    | inl same ↦ rw same refl
    | inr other ↦ rw other (stores_of-superblocks uuid xs)
  ]

  -- Start with the service empty and create sets of distinct uuids through the backend, one after
  -- the other, where `superblock::create` leaves the magic and the version of this code, every free
  -- pba store is made and the user's callback makes a listener for every set. All calls succeed.
  -- Start the service again on the superblocks that they wrote: the start succeeds with and without
  -- assertions, and for every uuid the two services find either no set or sets with the same name
  -- and the same superblock on the device.
  pub create_restart :
      (xs : List (NewSet S)) (uuid : ℕ)
      → ((p : ℕ) → (l : L) × (on_rs_init p ≡ ok l))
      → All (λ (x : NewSet S). IsValid x.created) xs
      → IsDistinct new_uuid xs
      → (svc svc' : Home) × (create_all xs empty_service ≡ (ok tt, svc))
        × (found_all sms_log st nu ndebug to_string on_rs_init (map superblock_of xs) empty_service
            ≡ (ok tt, svc'))
        × (durable uuid svc ≡ durable uuid svc')
  unfolding create_all find
  create_restart xs uuid inits valid distinct =
      let well : IsWell to_string empty_service = record { ascending = tt; named = tt } in
      let (svc, run, h) =
        add_all-Added new_uuid sm_store log_store to_string on_rs_init create_one
          (λ (x : NewSet S). IsValid x.created) create_one_run inits xs empty_service well valid
          distinct (all-fresh xs) in
      let (svc', run', shows) =
        started_from sms_log st nu ndebug to_string on_rs_init (superblocks xs) inits
          (superblocks-IsValid xs valid) (superblocks-IsDistinct xs distinct) in
      (
        svc,
        svc',
        run,
        run',
        ap durable_of (
              stores_at-of_uuid new_uuid sm_store log_store to_string on_rs_init uuid svc xs h.added
                λ ne. h.others uuid ne)
            ∙ stores_of-superblocks uuid xs
            ∙ sym (ap durable_of (shows uuid)),
      )
