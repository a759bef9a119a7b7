-- ===== src/Service/Several.antt =====
-- Several sets that are added to the map of ReplicationService one after the other, each with its
-- uuid and its two stores.
use home_replication.Base.{
  ℕ, ◌≡◌, ◌≢◌, ◌∙◌, refl, sym, arith, Option, none, some, List, [], ◌∷◌, All, length, get_elem?,
  get_elem?-append_left, get_elem?-append_end, get_elem?-lt, ◌==◌, if◌then◌else◌, ==→eq, inl, inr,
  Bool-cases,
}
use home_replication.Base.Exec.{Result, ok, pure, ◌>>◌}
use home_replication.Bytes.{Bytes}
use home_replication.Maps.{find, insert, find-insert_new, find-insert_other, insert_found}
use home_replication.ReplicaSet.{ReplicaSet}
use home_replication.Service.{ReplicationService, Svc, lookup_replica_set}
use home_replication.Service.Sets.{made, with_set, IsWell, with_set-IsWell}

module _ {X : Type 0} (uuid_of : X → ℕ) where
  -- Nothing in the list is of the uuid.
  abbrev pub IsAbsent : ℕ → List X → Type 0
  IsAbsent uuid xs = All (λ (x : X). uuid_of x ≢ uuid) xs

  abbrev pub IsDistinct : List X → Type 0
  IsDistinct [] = Unit {0}
  IsDistinct (x ∷ xs) = IsAbsent (uuid_of x) xs × IsDistinct xs

  -- The first of the list that is of the uuid.
  unfoldable pub of_uuid : ℕ → List X → Option X
  of_uuid uuid [] = none
  of_uuid uuid (x ∷ xs) = let rest = of_uuid uuid xs in if uuid == uuid_of x then some x else rest

-- One after the other.
unfoldable pub add_all :
    {Sms Rls L X : Type 0} → (X → Svc Sms Rls L (Unit {0})) → List X → Svc Sms Rls L (Unit {0})
add_all add [] = pure tt
add_all add (x ∷ xs) = add x >> add_all add xs

module _ {Sms Rls L X : Type 0} (uuid_of : X → ℕ) (sm_of : X → Sms) (log_of : X → Rls)
    (to_string : ℕ → Bytes) (on_rs_init : ℕ → Result L) where
  abbrev Service : Type 0
  Service = ReplicationService Sms Rls L

  abbrev pub set_of : X → L → ReplicaSet Sms Rls L
  set_of x l = made (to_string (uuid_of x)) (sm_of x) (log_of x) l

  -- A lookup finds the set, with the stores and the listener.
  abbrev pub IsAdded : Service → X → Type 0
  IsAdded svc x =
      (p : ℕ) × (l : L) × (lookup_replica_set (uuid_of x) svc ≡ (ok (some p), svc))
      × (on_rs_init p ≡ ok l)
      × (get_elem? svc.objects p ≡ some (set_of x l))

  abbrev pub IsFresh : Service → List X → Type 0
  IsFresh svc xs = All (λ (x : X). find (uuid_of x) svc.rs_map ≡ none) xs

  -- What a service is after the sets were added: it has what it had, and the sets.
  pub record Added (svc svc' : Service) (xs : List X) : Type 0 where
    pub well : IsWell to_string svc'
    pub kept : (uuid p : ℕ) → find uuid svc.rs_map ≡ some p → find uuid svc'.rs_map ≡ some p
    pub objects :
        (p : ℕ) (rs : ReplicaSet Sms Rls L)
        → get_elem? svc.objects p ≡ some rs
        → get_elem? svc'.objects p ≡ some rs
    pub others :
        (uuid : ℕ) → IsAbsent uuid_of uuid xs → find uuid svc'.rs_map ≡ find uuid svc.rs_map
    pub added : All (IsAdded svc') xs

  IsAdded-kept :
      (svc svc' : Service) (xs : List X) (x : X)
      → Added svc svc' xs
      → IsAdded svc x
      → IsAdded svc' x
  unfolding lookup_replica_set
  IsAdded-kept svc svc' xs x h (p, l, found, init, there) =
      let at : find (uuid_of x) svc.rs_map ≡ some p = ground (arith, found) in
      (p, l, rw (h.kept (uuid_of x) p at) refl, init, h.objects p (set_of x l) there)

  -- One more before the others.
  Added-one :
      (x : X) (xs : List X) (svc svc' : Service) (l : L)
      → IsWell to_string svc
      → find (uuid_of x) svc.rs_map ≡ none
      → on_rs_init (length svc.objects) ≡ ok l
      → Added (with_set svc (uuid_of x) (set_of x l)) svc' xs
      → Added svc svc' (x ∷ xs)
  unfolding lookup_replica_set
  Added-one x xs svc svc' l well fresh init h =
      let p : ℕ = length svc.objects in
      let one : Service = with_set svc (uuid_of x) (set_of x l) in
      let mine : IsAdded one x = (
        p,
        l,
        rw (find-insert_new (uuid_of x) p svc.rs_map fresh) refl,
        init,
        get_elem?-append_end svc.objects [] (set_of x l) p refl,
      ) in
      record {
        well = h.well;
        kept = λ uuid q found.
            h.kept uuid q (insert_found (uuid_of x) p svc.rs_map well.ascending uuid q found);
        objects = λ q rs there.
            h.objects q rs
              (get_elem?-append_left svc.objects _ q (get_elem?-lt svc.objects q rs there) ∙ there);
        others = λ uuid ne.
            h.others uuid ne.1
            ∙ find-insert_other uuid (uuid_of x) p svc.rs_map
                (λ (e : uuid ≡ uuid_of x). ne.0 (sym e));
        added = (IsAdded-kept one svc' xs x h mine, h.added);
      }

  IsFresh-insert :
      (svc : Service) (uuid p : ℕ) (xs : List X)
      → IsAbsent uuid_of uuid xs
      → IsFresh svc xs
      → All (λ (x : X). find (uuid_of x) (insert uuid p svc.rs_map) ≡ none) xs
  IsFresh-insert svc uuid p [] ne fresh = tt
  IsFresh-insert svc uuid p (x ∷ xs) (ne, nes) (fresh, freshs) = (
    find-insert_other (uuid_of x) uuid p svc.rs_map ne ∙ fresh,
    IsFresh-insert svc uuid p xs nes freshs,
  )

  -- A function that adds one new set adds several of distinct uuids.
  pub add_all-Added :
      (add : X → Svc Sms Rls L (Unit {0})) (IsGood : X → Type 0)
      → ((x : X) (l : L) (svc : Service)
          → IsGood x
          → find (uuid_of x) svc.rs_map ≡ none
          → on_rs_init (length svc.objects) ≡ ok l
          → add x svc ≡ (ok tt, with_set svc (uuid_of x) (set_of x l)))
      → ((p : ℕ) → (l : L) × (on_rs_init p ≡ ok l))
      → (xs : List X) (svc : Service) → IsWell to_string svc
      → All IsGood xs
      → IsDistinct uuid_of xs
      → IsFresh svc xs
      → (svc' : Service) × (add_all add xs svc ≡ (ok tt, svc')) × Added svc svc' xs
  unfolding add_all
  add_all-Added add IsGood add_one inits [] svc well good distinct fresh = (
    svc,
    refl,
    record {
      well = well;
      kept = λ uuid p found. found;
      objects = λ p rs there. there;
      others = λ uuid ne. refl;
      added = tt;
    },
  )
  add_all-Added add IsGood add_one inits (x ∷ xs) svc well (good, goods) (ne, distinct)
        (fresh, freshs) =
      let (l, init) = inits (length svc.objects) in
      let one : Service = with_set svc (uuid_of x) (set_of x l) in
      let (svc', run, h) =
        add_all-Added add IsGood add_one inits xs one
          (with_set-IsWell to_string svc (uuid_of x) (set_of x l) well refl) goods distinct
          (IsFresh-insert svc (uuid_of x) (length svc.objects) xs ne freshs) in
      (svc', rw (add_one x l svc good fresh init, run), Added-one x xs svc svc' l well fresh init h)

  -- The two stores and the name of the set that a lookup leads to.
  abbrev Stores : Type 0
  Stores = Sms × Rls × Bytes

  abbrev stores_of : Option (ReplicaSet Sms Rls L) → Option Stores
  stores_of none = none
  stores_of (some rs) = some (rs.state_store, rs.data_journal, rs.group_id)

  abbrev object_of : Service → Option ℕ → Option Stores
  object_of svc none = none
  object_of svc (some p) = stores_of (get_elem? svc.objects p)

  abbrev pub stores_at : ℕ → Service → Option Stores
  stores_at uuid svc = object_of svc (find uuid svc.rs_map)

  abbrev pub stores_in : Option X → Option Stores
  stores_in none = none
  stores_in (some x) = some (sm_of x, log_of x, to_string (uuid_of x))

  pub stores_at-of_uuid :
      (uuid : ℕ) (svc : Service) (xs : List X)
      → All (IsAdded svc) xs
      → (IsAbsent uuid_of uuid xs → find uuid svc.rs_map ≡ none)
      → stores_at uuid svc ≡ stores_in (of_uuid uuid_of uuid xs)
  unfolding of_uuid lookup_replica_set
  stores_at-of_uuid uuid svc [] added absent = rw (absent tt) refl
  stores_at-of_uuid uuid svc (x ∷ xs) ((p, l, found, init, there), added) absent =
      elim (Bool-cases (uuid == uuid_of x)) [
        | inl same ↦
            let at : find (uuid_of x) svc.rs_map ≡ some p = ground (arith, found) in
            let eq : uuid ≡ uuid_of x = ==→eq uuid (uuid_of x) same in
            rw same (rw eq (rw at (rw there refl)))
        | inr other ↦ rw other (
            stores_at-of_uuid uuid svc xs added
              λ ne. absent (λ (e : uuid_of x ≡ uuid). ground (arith, e), ne))
      ]
