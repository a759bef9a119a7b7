-- ===== src/Service/Tests.antt =====
-- A service with the replica set of the uuid 7, over a backend whose stores are numbers.
use home_replication.Base.{
  ℕ, ◌+◌, ◌≡◌, ◌≢◌, refl, true, false, some, none, [], ◌∷◌, arith, get_elem?,
}
use home_replication.Base.Exec.{Result, ok, err, assertion, Exec}
use home_replication.Bytes.{Bytes}
use home_replication.Maps.{find}
use home_replication.Service.{
  ReplicationService, ReplicationServiceBackend, lookup_replica_set, create_replica_set,
}
use home_replication.Service.Lock.{plain, looks_up, walk, iterate_locked, iterate_lem}
use home_replication.Service.Sets.{made, IsWell, create_lem, create_existing}

abbrev pub to_string : ℕ → Bytes
to_string uuid = uuid ∷ []

abbrev pub on_rs_init : ℕ → Result ℕ
on_rs_init rs = ok 50

abbrev pub backend : ReplicationServiceBackend ℕ ℕ
backend = record { create_state_store = λ uuid. ok 10; create_log_store = ok 20 }

abbrev pub service : ReplicationService ℕ ℕ ℕ
service = record { rs_map = (7, 0) ∷ []; objects = made (to_string 7) 1 2 3 ∷ [] }

pub service-IsWell : IsWell to_string service
service-IsWell = record {
  ascending = (tt, tt);
  named = ((made (to_string 7) 1 2 3, refl, refl), tt);
}

at_7 : find 7 service.rs_map ≡ some 0
unfolding find
at_7 = refl

pub not_at_8 : find 8 service.rs_map ≡ none
unfolding find
not_at_8 = refl

create_lem_example :
    (svc : ReplicationService ℕ ℕ ℕ) × (create_replica_set false to_string on_rs_init backend 8
        service
      ≡ (ok 1, svc))
    × ((lookup_replica_set 8 svc ≡ (ok (some 1), svc))
        × (get_elem? svc.objects 1 ≡ some (made (to_string 8) 10 20 50))
        × (lookup_replica_set 7 svc ≡ ((lookup_replica_set 7 service).0, svc))
        × IsWell to_string svc)
create_lem_example =
    create_lem to_string on_rs_init service 8 10 20 50 refl service-IsWell not_at_8 7
      (λ (e : 7 ≡ 8). omega arith) false backend refl refl

create_existing_example :
    (create_replica_set false to_string on_rs_init backend 7 service ≡ (err assertion, service))
    × ((svc : ReplicationService ℕ ℕ ℕ) × (new : ℕ) × (create_replica_set true to_string on_rs_init
            backend 7 service
          ≡ (ok new, svc))
        × (lookup_replica_set 7 svc ≡ (ok (some 0), svc))
        × (new ≢ 0))
create_existing_example =
    create_existing to_string on_rs_init service 7 10 20 50 refl backend 0 service-IsWell at_7 refl
      refl

abbrev count : ℕ → Exec ℕ (Unit {0})
count rs seen = (ok tt, seen + 1)

iterate_lem_example :
    (iterate_locked (plain count) (record { held = false; user = 0; service = service })
      ≡ some (ok tt, record { held = false; user = 1; service = service }))
    × (iterate_locked
          (looks_up 9 (λ rs found. plain count rs))
          (record { held = false; user = 0; service = service })
        ≡ none)
unfolding walk
iterate_lem_example = iterate_lem count 9 (λ rs found. plain count rs) service 0 (7, 0) [] refl
