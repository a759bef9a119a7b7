-- ===== src/Service/Threads/Keeps.antt =====
-- What a part of create_replica_set on one thread leaves of the map and the objects.
use home_replication.Base.{
  ℕ, zero, suc, some, List, [], ◌∷◌, ◌++◌, ◌≡◌, ◌∙◌, refl, ap, length, get_elem?, All,
  get_elem?-append_left, get_elem?-append_end, get_elem?-lt,
}
use mathlib.Core.Path.{subst}
use mathlib.Core.Option.{none-ne-some, some-injective}
use home_replication.Bytes.{Bytes}
use home_replication.Maps.{find}
use home_replication.ReplicaSet.{ReplicaSet, replica_set, attach_listener}
use home_replication.Service.{ReplicationService, modify}
use home_replication.Service.Sets.{IsNamed, IsWell}
use home_replication.Service.Threads.{
  Thread, started, checked, constructed, inserted, called, returned, failed, recovering, rechecked,
  looking, looked,
}

module _ {Sms Rls L : Type 0} (to_string : ℕ → Bytes) where
  -- Between the construction and the insertion, the pointer leads to a set with the uuid's name.
  abbrev pub IsSettled : List (ReplicaSet Sms Rls L) → Thread Sms Rls L → Type 0
  IsSettled objects (constructed uuid rs) = IsNamed to_string objects (uuid, rs)
  IsSettled objects t = Unit {0}

  -- What a part of the function keeps.
  pub record Keeps (svc svc' : ReplicationService Sms Rls L) : Type 0 where
    pub named : (e : ℕ × ℕ) → IsNamed to_string svc.objects e → IsNamed to_string svc'.objects e
    pub found : (uuid rs : ℕ) → find uuid svc.rs_map ≡ some rs → find uuid svc'.rs_map ≡ some rs

  pub Keeps-refl : (svc : ReplicationService Sms Rls L) → Keeps svc svc
  Keeps-refl svc = record { named = λ e h. h; found = λ uuid rs h. h }

  pub Keeps-trans : (a b c : ReplicationService Sms Rls L) → Keeps a b → Keeps b c → Keeps a c
  Keeps-trans a b c h k = record {
    named = λ e n. k.named e (h.named e n);
    found = λ uuid rs n. k.found uuid rs (h.found uuid rs n);
  }

  -- A thread that moves keeps the map in order, and stands well itself.
  abbrev pub IsGood :
      ReplicationService Sms Rls L → Thread Sms Rls L × ReplicationService Sms Rls L → Type 0
  IsGood svc r = Keeps svc r.1 × IsWell to_string r.1 × IsSettled r.1.objects r.0

  grown-IsNamed :
      (objects : List (ReplicaSet Sms Rls L)) (new : ReplicaSet Sms Rls L) (e : ℕ × ℕ)
      → IsNamed to_string objects e
      → IsNamed to_string (objects ++ (new ∷ [])) e
  grown-IsNamed objects new e (rs, at, name) =
      (rs, get_elem?-append_left objects (new ∷ []) e.1 (get_elem?-lt objects e.1 rs at) ∙ at, name)

  attached_at :
      (l : L) (p q : ℕ) (objects : List (ReplicaSet Sms Rls L)) (rs : ReplicaSet Sms Rls L)
      → get_elem? objects q ≡ some rs
      → (rs' : ReplicaSet Sms Rls L) × (get_elem? (modify p (attach_listener l) objects) q
          ≡ some rs')
        × (rs'.group_id ≡ rs.group_id)
  unfolding modify attach_listener
  attached_at l p q [] rs h = cc
  attached_at l zero zero (x ∷ xs) rs h = (
    attach_listener l x,
    refl,
    ap (λ (r : ReplicaSet Sms Rls L). r.group_id) (some-injective x rs h),
  )
  attached_at l zero (suc q) (x ∷ xs) rs h = (rs, h, refl)
  attached_at l (suc p) zero (x ∷ xs) rs h = (rs, h, refl)
  attached_at l (suc p) (suc q) (x ∷ xs) rs h = attached_at l p q xs rs h

  All-IsNamed :
      (svc svc' : ReplicationService Sms Rls L) (sets : List (ℕ × ℕ))
      → Keeps svc svc'
      → All (IsNamed to_string svc.objects) sets
      → All (IsNamed to_string svc'.objects) sets
  All-IsNamed svc svc' [] k h = tt
  All-IsNamed svc svc' (e ∷ sets) k (n, h) = (k.named e n, All-IsNamed svc svc' sets k h)

  pub attached-IsNamed :
      (l : L) (p : ℕ) (objects : List (ReplicaSet Sms Rls L)) (e : ℕ × ℕ)
      → IsNamed to_string objects e
      → IsNamed to_string (modify p (attach_listener l) objects) e
  attached-IsNamed l p objects e (rs, at, name) =
      let (rs', at', same) = attached_at l p e.1 objects rs at in (rs', at', same ∙ name)

  -- Other objects for the same map.
  pub with_objects-IsWell :
      (svc : ReplicationService Sms Rls L) (objects : List (ReplicaSet Sms Rls L))
      → IsWell to_string svc
      → Keeps svc (record svc { objects = objects })
      → IsWell to_string (record svc { objects = objects })
  with_objects-IsWell svc objects well kept = record {
    ascending = well.ascending;
    named = All-IsNamed svc (record svc { objects = objects }) svc.rs_map kept well.named;
  }

  pub constructed-IsGood :
      (uuid : ℕ) (svc : ReplicationService Sms Rls L) (sm_store : Sms) (log_store : Rls)
      → IsWell to_string svc
      → IsGood svc (
        constructed uuid (length svc.objects),
        record svc {
          objects = svc.objects ++ (replica_set (to_string uuid) sm_store log_store ∷ []);
        },
      )
  unfolding replica_set
  constructed-IsGood uuid svc sm_store log_store well =
      let new : ReplicaSet Sms Rls L = replica_set (to_string uuid) sm_store log_store in
      let kept : Keeps svc (record svc { objects = svc.objects ++ (new ∷ []) }) = record {
        named = λ e h. grown-IsNamed svc.objects new e h;
        found = λ uuid p h. h;
      } in
      (
        kept,
        with_objects-IsWell svc _ well kept,
        (new, get_elem?-append_end svc.objects [] new (length svc.objects) refl, refl),
      )

  IsSettled-kept :
      (svc svc' : ReplicationService Sms Rls L) (t : Thread Sms Rls L)
      → Keeps svc svc'
      → IsSettled svc.objects t
      → IsSettled svc'.objects t
  IsSettled-kept svc svc' (started uuid) k h = tt
  IsSettled-kept svc svc' (checked uuid) k h = tt
  IsSettled-kept svc svc' (constructed uuid rs) k h = k.named (uuid, rs) h
  IsSettled-kept svc svc' (inserted rs) k h = tt
  IsSettled-kept svc svc' (called rs l) k h = tt
  IsSettled-kept svc svc' (returned rs) k h = tt
  IsSettled-kept svc svc' (failed e) k h = tt
  IsSettled-kept svc svc' (recovering uuid sm_store log_store) k h = tt
  IsSettled-kept svc svc' (rechecked uuid sm_store log_store) k h = tt
  IsSettled-kept svc svc' (looking uuid) k h = tt
  IsSettled-kept svc svc' (looked found) k h = tt

  all-IsSettled :
      (svc svc' : ReplicationService Sms Rls L) (threads : List (Thread Sms Rls L))
      → Keeps svc svc'
      → All (IsSettled svc.objects) threads
      → All (IsSettled svc'.objects) threads
  all-IsSettled svc svc' [] k h = tt
  all-IsSettled svc svc' (t ∷ threads) k (h, hs) =
      (IsSettled-kept svc svc' t k h, all-IsSettled svc svc' threads k hs)

  -- The threads after one of them moved.
  pub others-IsSettled :
      (svc svc' : ReplicationService Sms Rls L) (i : ℕ) (t : Thread Sms Rls L)
      (threads : List (Thread Sms Rls L))
      → Keeps svc svc'
      → IsSettled svc'.objects t
      → All (IsSettled svc.objects) threads
      → All (IsSettled svc'.objects) (modify i (λ _. t) threads)
  unfolding modify
  others-IsSettled svc svc' i t [] k h hs = tt
  others-IsSettled svc svc' zero t (u ∷ threads) k h (hu, hs) =
      (h, all-IsSettled svc svc' threads k hs)
  others-IsSettled svc svc' (suc i) t (u ∷ threads) k h (hu, hs) =
      (IsSettled-kept svc svc' u k hu, others-IsSettled svc svc' i t threads k h hs)

  pub IsSettled-at :
      (objects : List (ReplicaSet Sms Rls L)) (i : ℕ) (t : Thread Sms Rls L)
      (threads : List (Thread Sms Rls L))
      → All (IsSettled objects) threads
      → get_elem? threads i ≡ some t
      → IsSettled objects t
  IsSettled-at objects i t [] h at = absurd (none-ne-some t at)
  IsSettled-at objects zero t (u ∷ threads) (h, hs) at =
      subst (IsSettled objects) (some-injective u t at) h
  IsSettled-at objects (suc i) t (u ∷ threads) (h, hs) at = IsSettled-at objects i t threads hs at
