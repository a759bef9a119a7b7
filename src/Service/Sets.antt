-- ===== src/Service/Sets.antt =====
-- The map of ReplicationService and the objects that it leads to.
use home_replication.Base.{
  ℕ, ◌<◌, ◌≡◌, ◌≢◌, ◌∙◌, refl, ap, sym, Bool, true, false, Option, none, some, List, [], ◌∷◌, ◌++◌,
  All, arith, length, get_elem?, get_elem?-append_left, get_elem?-append_end, get_elem?-none,
}
use mathlib.Core.Option.{none-ne-some}
use home_replication.Base.{ltb, Bool-cases, ltb→lt, ltb→le, inl, inr}
use home_replication.Base.Exec.{Result, ok, err, assertion}
use home_replication.Bytes.{Bytes}
use home_replication.HomeStore.Records.{IsAscending}
use home_replication.Maps.{
  find, insert, find-insert_new, find-insert_old, find-insert_other, insert-IsAscending, All-insert,
  find-All,
}
use home_replication.ReplicaSet.{ReplicaSet, replica_set, attach_listener}
use home_replication.Service.{
  ReplicationService, ReplicationServiceBackend, modify, lookup_replica_set, create_replica_set,
  on_replica_store_found,
}

modify-append :
    {A : Type 0} (f : A → A) (xs : List A) (x : A)
    → modify (length xs) f (xs ++ (x ∷ [])) ≡ xs ++ (f x ∷ [])
unfolding modify
modify-append f [] x = refl
modify-append f (y ∷ xs) x = ap (λ t. y ∷ t) (modify-append f xs x)

module _ {Sms Rls L : Type 0} where
  -- The object that a set becomes: its stores, with the listener.
  abbrev pub made : Bytes → Sms → Rls → L → ReplicaSet Sms Rls L
  made group_id sm_store log_store listener = record {
    state_store = sm_store;
    data_journal = log_store;
    listener = some listener;
    lsn_req_map = [];
    group_id = group_id;
  }

  -- The service with one more set.
  abbrev pub with_set :
      ReplicationService Sms Rls L → ℕ → ReplicaSet Sms Rls L → ReplicationService Sms Rls L
  with_set svc uuid rs = record {
    rs_map = insert uuid (length svc.objects) svc.rs_map;
    objects = svc.objects ++ (rs ∷ []);
  }

  -- The pointer of the entry leads to a set with the uuid's name.
  abbrev pub IsNamed : (ℕ → Bytes) → List (ReplicaSet Sms Rls L) → ℕ × ℕ → Type 0
  IsNamed to_string objects e =
      (rs : ReplicaSet Sms Rls L) × (get_elem? objects e.1 ≡ some rs)
      × (rs.group_id ≡ to_string e.0)

  pub record IsWell (to_string : ℕ → Bytes) (svc : ReplicationService Sms Rls L) : Type 0 where
    pub ascending : IsAscending svc.rs_map
    pub named : All (IsNamed to_string svc.objects) svc.rs_map

  pointer-lt :
      (to_string : ℕ → Bytes) (objects : List (ReplicaSet Sms Rls L)) (e : ℕ × ℕ)
      → IsNamed to_string objects e
      → e.1 < length objects
  pointer-lt to_string objects e (rs, here, name) = elim (Bool-cases (ltb e.1 (length objects))) [
    | inl lt ↦ ltb→lt _ _ lt
    | inr ge ↦ absurd (none-ne-some rs (sym (get_elem?-none objects e.1 (ltb→le _ _ ge)) ∙ here))
  ]

  IsNamed-grown :
      (to_string : ℕ → Bytes) (objects : List (ReplicaSet Sms Rls L)) (new : ReplicaSet Sms Rls L)
      (sets : List (ℕ × ℕ))
      → All (IsNamed to_string objects) sets
      → All (IsNamed to_string (objects ++ (new ∷ []))) sets
  IsNamed-grown to_string objects new [] h = tt
  IsNamed-grown to_string objects new (e ∷ sets) ((rs, here, name), h) =
      let lt : e.1 < length objects = pointer-lt to_string objects e (rs, here, name) in
      (
        (rs, get_elem?-append_left objects (new ∷ []) e.1 lt ∙ here, name),
        IsNamed-grown to_string objects new sets h,
      )

  pub with_set-IsWell :
      (to_string : ℕ → Bytes) (svc : ReplicationService Sms Rls L) (uuid : ℕ)
      (rs : ReplicaSet Sms Rls L)
      → IsWell to_string svc
      → rs.group_id ≡ to_string uuid
      → IsWell to_string (with_set svc uuid rs)
  with_set-IsWell to_string svc uuid rs well name = record {
    ascending = insert-IsAscending uuid (length svc.objects) svc.rs_map well.ascending;
    named =
        All-insert (IsNamed to_string (svc.objects ++ (rs ∷ []))) uuid (length svc.objects)
          svc.rs_map (rs, get_elem?-append_end svc.objects [] rs (length svc.objects) refl, name)
          (IsNamed-grown to_string svc.objects rs svc.rs_map well.named);
  }

  module _ (to_string : ℕ → Bytes) (on_rs_init : ℕ → Result L) (svc : ReplicationService Sms Rls L)
      (uuid : ℕ) (sm_store : Sms) (log_store : Rls) (listener : L)
      (init : on_rs_init (length svc.objects) ≡ ok listener) where
    abbrev rs : ReplicaSet Sms Rls L
    rs = made (to_string uuid) sm_store log_store listener

    attached :
        modify
          (length svc.objects)
          (attach_listener listener)
          (svc.objects ++ (replica_set (to_string uuid) sm_store log_store ∷ []))
        ≡ svc.objects ++ (rs ∷ [])
    unfolding attach_listener replica_set
    attached = modify-append (attach_listener listener) svc.objects _

    pub found_run :
        (ndebug : Bool)
        → find uuid svc.rs_map ≡ none
        → on_replica_store_found ndebug to_string on_rs_init uuid sm_store log_store svc
          ≡ (ok tt, with_set svc uuid rs)
    unfolding on_replica_store_found lookup_replica_set
    found_run ndebug fresh = rw (fresh, init, attached)

    pub create_run :
        (ndebug : Bool) (backend : ReplicationServiceBackend Sms Rls)
        → find uuid svc.rs_map ≡ none
        → backend.create_state_store uuid ≡ ok sm_store
        → backend.create_log_store ≡ ok log_store
        → create_replica_set ndebug to_string on_rs_init backend uuid svc
          ≡ (ok (length svc.objects), with_set svc uuid rs)
    unfolding create_replica_set lookup_replica_set
    create_run ndebug backend fresh made_state made_log =
        rw (fresh, made_state, made_log, init, attached)

    module _ (well : IsWell to_string svc) (fresh : find uuid svc.rs_map ≡ none) (i : ℕ)
        (other : i ≢ uuid) where
      -- What both ways of adding a new set leave.
      abbrev IsAdded : ReplicationService Sms Rls L → Type 0
      IsAdded svc' =
          (lookup_replica_set uuid svc' ≡ (ok (some (length svc.objects)), svc'))
          × (get_elem? svc'.objects (length svc.objects) ≡ some rs)
          × (lookup_replica_set i svc' ≡ ((lookup_replica_set i svc).0, svc'))
          × IsWell to_string svc'

      with_set-IsAdded : IsAdded (with_set svc uuid rs)
      unfolding lookup_replica_set
      with_set-IsAdded = (
        ap (λ (o : Option ℕ). (ok o, with_set svc uuid rs))
            (find-insert_new uuid (length svc.objects) svc.rs_map fresh),
        get_elem?-append_end svc.objects [] rs (length svc.objects) refl,
        ap (λ (o : Option ℕ). (ok o, with_set svc uuid rs))
            (find-insert_other i uuid (length svc.objects) svc.rs_map other),
        with_set-IsWell to_string svc uuid rs well refl,
      )

      -- On a service whose map is in order and in which each set has the name of its uuid,
      -- `on_replica_store_found` of a uuid that is not in the map adds a new object with the name
      -- of the uuid, the two stores and the listener that the user's callback makes. A lookup of
      -- the uuid then gives it, a lookup of another uuid what it gave before, and the map is again
      -- in order with its names.
      store_found_lem :
          (ndebug : Bool)
          → (svc' : ReplicationService Sms Rls L) × (on_replica_store_found ndebug to_string
                on_rs_init uuid sm_store log_store svc
              ≡ (ok tt, svc'))
            × IsAdded svc'
      store_found_lem ndebug = (with_set svc uuid rs, found_run ndebug fresh, with_set-IsAdded)

      -- On a service whose map is in order and in which each set has the name of its uuid,
      -- `create_replica_set` of a uuid that is not in the map returns a pointer to a new object,
      -- where the backend makes both stores and the user's callback a listener. That object has the
      -- name of the uuid, the stores and the listener; a lookup of the uuid then gives the pointer,
      -- a lookup of another uuid what it gave before, and the map is again in order with its names.
      pub create_lem :
          (ndebug : Bool) (backend : ReplicationServiceBackend Sms Rls)
          → backend.create_state_store uuid ≡ ok sm_store
          → backend.create_log_store ≡ ok log_store
          → (svc' : ReplicationService Sms Rls L) × (create_replica_set ndebug to_string on_rs_init
                backend uuid svc
              ≡ (ok (length svc.objects), svc'))
            × IsAdded svc'
      create_lem ndebug backend made_state made_log = (
        with_set svc uuid rs,
        create_run ndebug backend fresh made_state made_log,
        with_set-IsAdded,
      )

    -- On a service whose map is in order and in which each set has the name of its uuid, take a
    -- uuid that the map leads to `p`. With assertions `create_replica_set` fails and changes
    -- nothing. Without them, where the backend makes both stores and the callback a listener, it
    -- returns a pointer other than `p`, and a lookup of the uuid still gives `p`.
    pub create_existing :
        (backend : ReplicationServiceBackend Sms Rls) (p : ℕ)
        → IsWell to_string svc
        → find uuid svc.rs_map ≡ some p
        → backend.create_state_store uuid ≡ ok sm_store
        → backend.create_log_store ≡ ok log_store
        → (create_replica_set false to_string on_rs_init backend uuid svc ≡ (err assertion, svc))
          × ((svc' : ReplicationService Sms Rls L) × (new : ℕ) × (create_replica_set true to_string
                  on_rs_init backend uuid svc
                ≡ (ok new, svc'))
              × (lookup_replica_set uuid svc' ≡ (ok (some p), svc'))
              × (new ≢ p))
    unfolding create_replica_set lookup_replica_set
    create_existing backend p well there made_state made_log =
        let lt : p < length svc.objects =
          pointer-lt to_string svc.objects (uuid, p)
            (find-All (IsNamed to_string svc.objects) uuid p svc.rs_map well.named there) in
        (
          rw there,
          (
            with_set svc uuid rs,
            length svc.objects,
            rw (there, made_state, made_log, init, attached),
            ap (λ (o : Option ℕ). (ok o, with_set svc uuid rs))
                (find-insert_old uuid (length svc.objects) p svc.rs_map well.ascending there),
            λ (e : length svc.objects ≡ p). omega arith,
          ),
        )
