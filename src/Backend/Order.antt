-- ===== src/Backend/Order.antt =====
-- The start of HomeReplicationBackend and the order in which the superblocks are found.
use home_replication.Base.{
  ℕ, ◌≡◌, ◌≢◌, ◌∙◌, refl, ap, sym, arith, Bool, Option, none, List, [], ◌∷◌, All,
}
use mathlib.Core.Path.{subst}
use mathlib.Core.List.{Permᴰ}
use home_replication.Base.Exec.{Result, ok}
use home_replication.Bytes.{Bytes}
use home_replication.Maps.{find}
use home_replication.HomeStore.{HomeLogStore}
use home_replication.Nuraft.{Nuraft}
use home_replication.StateStore.{HomeRsSuperblk}
use home_replication.Service.Sets.{IsWell}
use home_replication.Service.Several.{IsAbsent, IsDistinct, of_uuid, stores_in, stores_at-of_uuid}
use home_replication.Backend.{SmObject, RaftObject}
use home_replication.Backend.Restart.{
  HomeService, IsValid, uuid_of, sm_store_of, log_store_of, stores_found, found_all, restart_lem,
}

IsAbsent-perm :
    (uuid : ℕ) {xs ys : List HomeRsSuperblk}
    → Permᴰ xs ys
    → IsAbsent uuid_of uuid xs
    → IsAbsent uuid_of uuid ys
IsAbsent-perm uuid Permᴰ.nil h = tt
IsAbsent-perm uuid (Permᴰ.cons same p) (h, hs) =
    (subst (λ (sb : HomeRsSuperblk). sb.uuid ≢ uuid) same h, IsAbsent-perm uuid p hs)
IsAbsent-perm uuid (Permᴰ.swap e f) (ha, (hb, h)) = (
  subst (λ (sb : HomeRsSuperblk). sb.uuid ≢ uuid) f hb,
  (subst (λ (sb : HomeRsSuperblk). sb.uuid ≢ uuid) e ha, h),
)
IsAbsent-perm uuid (Permᴰ.trans p q) h = IsAbsent-perm uuid q (IsAbsent-perm uuid p h)

IsDistinct-perm :
    {xs ys : List HomeRsSuperblk} → Permᴰ xs ys → IsDistinct uuid_of xs → IsDistinct uuid_of ys
IsDistinct-perm Permᴰ.nil h = tt
IsDistinct-perm (Permᴰ.cons {a = x} {l₂ = ys} same p) (h, hs) = (
  subst (λ (sb : HomeRsSuperblk). IsAbsent uuid_of sb.uuid ys) same (IsAbsent-perm x.uuid p h),
  IsDistinct-perm p hs,
)
IsDistinct-perm (Permᴰ.swap {l = l} e f) ((ba, ha), (hb, h)) = (
  (
    λ same. ba (ap uuid_of f ∙ sym same ∙ ap uuid_of (sym e)),
    subst (λ (sb : HomeRsSuperblk). IsAbsent uuid_of sb.uuid l) f hb,
  ),
  (subst (λ (sb : HomeRsSuperblk). IsAbsent uuid_of sb.uuid l) e ha, h),
)
IsDistinct-perm (Permᴰ.trans p q) h = IsDistinct-perm q (IsDistinct-perm p h)

swapped_first :
    (uuid : ℕ) (a b : HomeRsSuperblk) (l : List HomeRsSuperblk)
    → b.uuid ≢ a.uuid
    → of_uuid uuid_of uuid (a ∷ b ∷ l) ≡ of_uuid uuid_of uuid (b ∷ a ∷ l)
unfolding of_uuid
swapped_first uuid a b l other = ground arith

of_uuid-perm :
    (uuid : ℕ) {xs ys : List HomeRsSuperblk}
    → Permᴰ xs ys
    → IsDistinct uuid_of xs
    → of_uuid uuid_of uuid xs ≡ of_uuid uuid_of uuid ys
unfolding of_uuid
of_uuid-perm uuid Permᴰ.nil h = refl
of_uuid-perm uuid (Permᴰ.cons {a = x} {l₁ = xs} {l₂ = ys} same p) (h, hs) =
    subst (λ (sb : HomeRsSuperblk). of_uuid uuid_of uuid (x ∷ xs) ≡ of_uuid uuid_of uuid (sb ∷ ys))
      same (rw (of_uuid-perm uuid p hs) refl)
of_uuid-perm uuid (Permᴰ.swap {a = a} {b = b} {a' = c} {l = l} e f) ((ba, ha), hb) =
    swapped_first uuid a b l ba
    ∙ ap (λ (sb : HomeRsSuperblk). of_uuid uuid_of uuid (sb ∷ a ∷ l)) f
    ∙ ap (λ (sb : HomeRsSuperblk). of_uuid uuid_of uuid (c ∷ sb ∷ l)) e
of_uuid-perm uuid (Permᴰ.trans p q) h =
    of_uuid-perm uuid p h ∙ of_uuid-perm uuid q (IsDistinct-perm p h)

module _ {S T L : Type 0} (sms_log : HomeLogStore S) (st : HomeLogStore T) (nu : Nuraft)
    (ndebug : Bool) (to_string : ℕ → Bytes) (on_rs_init : ℕ → Result L) where
  abbrev Home : Type 0
  Home = HomeService sms_log st nu ndebug to_string on_rs_init

  abbrev stores_in_superblk : Option HomeRsSuperblk → Option (SmObject S × RaftObject T × Bytes)
  stores_in_superblk sb =
      stores_in uuid_of (sm_store_of sms_log st nu ndebug to_string on_rs_init)
        (log_store_of sms_log st nu ndebug to_string on_rs_init) to_string on_rs_init sb

  abbrev pub found : ℕ → Home → Option (SmObject S × RaftObject T × Bytes)
  found uuid svc = stores_found sms_log st nu ndebug to_string on_rs_init uuid svc

  -- The service as its constructor leaves it.
  abbrev pub empty : Home
  empty = record { rs_map = []; objects = [] }

  all-fresh :
      (sbs : List HomeRsSuperblk)
      → All (λ (sb : HomeRsSuperblk). find sb.uuid empty.rs_map ≡ none) sbs
  unfolding find
  all-fresh [] = tt
  all-fresh (sb ∷ sbs) = (refl, all-fresh sbs)

  IsValid-perm : {xs ys : List HomeRsSuperblk} → Permᴰ xs ys → All IsValid xs → All IsValid ys
  IsValid-perm Permᴰ.nil h = tt
  IsValid-perm (Permᴰ.cons same p) (h, hs) = (subst IsValid same h, IsValid-perm p hs)
  IsValid-perm (Permᴰ.swap e f) (ha, (hb, h)) = (subst IsValid f hb, (subst IsValid e ha, h))
  IsValid-perm (Permᴰ.trans p q) h = IsValid-perm q (IsValid-perm p h)

  pub started_from :
      (sbs : List HomeRsSuperblk)
      → ((p : ℕ) → (l : L) × (on_rs_init p ≡ ok l))
      → All IsValid sbs
      → IsDistinct uuid_of sbs
      → (svc : Home) × (found_all sms_log st nu ndebug to_string on_rs_init sbs empty
          ≡ (ok tt, svc))
        × ((uuid : ℕ) → found uuid svc ≡ stores_in_superblk (of_uuid uuid_of uuid sbs))
  unfolding find
  started_from sbs inits valid distinct =
      let well : IsWell to_string empty = record { ascending = tt; named = tt } in
      let (svc, run, h) =
        restart_lem sms_log st nu ndebug to_string on_rs_init sbs empty inits well valid distinct
          (all-fresh sbs) in
      (
        svc,
        run,
        λ uuid.
            stores_at-of_uuid uuid_of _ _ to_string on_rs_init uuid svc sbs h.added
              λ ne. h.others uuid ne,
      )

  -- Start the service, whose map is empty, on superblocks of this magic and version and of distinct
  -- uuids, and start it on the same superblocks in another order, where the user's callback makes a
  -- listener for every set. Both starts succeed, and for every uuid the two services find either no
  -- set or sets with the same name and the same two stores, for which log stores with the same ids
  -- are asked to be opened.
  pub restart_order :
      (xs ys : List HomeRsSuperblk) (uuid : ℕ)
      → Permᴰ xs ys
      → ((p : ℕ) → (l : L) × (on_rs_init p ≡ ok l))
      → All IsValid xs
      → IsDistinct uuid_of xs
      → (svc svc' : Home) × (found_all sms_log st nu ndebug to_string on_rs_init xs empty
          ≡ (ok tt, svc))
        × (found_all sms_log st nu ndebug to_string on_rs_init ys empty ≡ (ok tt, svc'))
        × (found uuid svc ≡ found uuid svc')
  restart_order xs ys uuid p inits valid distinct =
      let (svc, run, shows) = started_from xs inits valid distinct in
      let (svc', run', shows') =
        started_from ys inits (IsValid-perm p valid) (IsDistinct-perm p distinct) in
      (
        svc,
        svc',
        run,
        run',
        shows uuid ∙ ap stores_in_superblk (of_uuid-perm uuid p distinct) ∙ sym (shows' uuid),
      )
