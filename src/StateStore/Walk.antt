-- ===== src/StateStore/Walk.antt =====
-- `get_free_pba_records` of HomeStateMachineStore against the list of records.
use home_replication.Base.{
  ℕ, ◌+◌, ◌^◌, ◌≤◌, ◌<◌, ◌≡◌, ◌∙◌, refl, ap, List, [], ◌∷◌, All, arith, Option, ltb, false,
  Bool-cases, ltb→lt, ltb→le, le→leb, tests, inl, inr,
}
use home_replication.Base.Int.{ℤ, pos}
use home_replication.Base.Exec.{Result, ok}
use home_replication.Bytes.{Bytes}
use home_replication.HomeStore.{HomeLogStore, RecordLog, visit_records}
use home_replication.HomeStore.Records.{
  IsAscending, put, from, within, within-put_self, within-Above, within-from, from-IsAscending,
}
use home_replication.StateStore.{
  HomeRsSuperblk, HomeStateMachineStore, Callback, to_store_lsn, add_free_pba_record,
  get_free_pba_records, deliver_record,
}
use home_replication.StateStore.Pbas.{packed, decode_pbas-packed}
use home_replication.StateStore.Records.{
  Pbas, stored, from-stored, IsFree, All-from, Above-bounds, opened, deliver, Represents, ascending,
  add_lem,
}

-- A callback that keeps what it is given, the last in front.
abbrev pub gather : Callback (List (ℤ × Pbas))
gather lsn p acc = (lsn, p) ∷ acc

module _ {S : Type 0} (st : HomeLogStore S) (law : RecordLog st) (sb : HomeRsSuperblk)
    (disk : Option HomeRsSuperblk) (mem : HomeRsSuperblk) where
  module _ {B : Type 0} (cb : Callback B) (k b : ℕ) (p : Pbas) (acc : B) (h : IsFree (k, p))
      (fits : b + 2 < 2 ^ 63) where
    deliver_inside :
        k < b
        → deliver_record st (pos (b + 1)) cb (pos k) (packed p) (ok acc)
          ≡ (ltb (k + 1) b, ok (cb (pos (k + 1)) p acc))
    unfolding deliver_record
    deliver_inside lt = ground (arith, decode_pbas-packed p h.1)

    deliver_outside :
        b ≤ k → deliver_record st (pos (b + 1)) cb (pos k) (packed p) (ok acc) ≡ (false, ok acc)
    unfolding deliver_record
    deliver_outside ge = ground arith

  -- The walk of `get_free_pba_records` over ascending records from the number `a` on.
  deliver_visit :
      {B : Type 0} (cb : Callback B) (a b : ℕ) (l : List (ℕ × Pbas)) (acc : B)
      → b + 2 < 2 ^ 63
      → IsAscending l
      → All IsFree l
      → All (λ r. a ≤ r.0) l
      → visit_records (deliver_record st (pos (b + 1)) cb) (stored l) (ok acc)
        ≡ ok (deliver cb (within a b l) acc)
  unfolding visit_records within
  deliver_visit cb a b [] acc fits asc free lo = refl
  deliver_visit cb a b ((k, p) ∷ l) acc fits (above, asc) (hk, free) (lo, los) =
      elim (Bool-cases (ltb k b)) [
        | inl inside ↦ elim (Bool-cases (ltb (k + 1) b)) [
          | inl more ↦ rw (
            deliver_inside cb k b p acc hk fits (ltb→lt k b inside),
            more,
            deliver_visit cb a b l (cb (pos (k + 1)) p acc) fits asc free los,
            le→leb a k lo,
            inside,
          )
          | inr last ↦ rw (
            deliver_inside cb k b p acc hk fits (ltb→lt k b inside),
            last,
            le→leb a k lo,
            inside,
            within-Above a b k l (ltb→le (k + 1) b last) above,
          )
        ]
        | inr outside ↦ rw (
          deliver_outside cb k b p acc hk fits (ltb→le k b outside),
          le→leb a k lo,
          outside,
          within-Above a b k l (omega tests) above,
        )
      ]

  from_bounds : (a : ℕ) (l : List (ℕ × Pbas)) → IsAscending l → All (λ r. a ≤ r.0) (from a l)
  unfolding from
  from_bounds a [] asc = tt
  from_bounds a ((k, p) ∷ l) (above, asc) = elim (Bool-cases (ltb k a)) [
    | inl lt ↦ rw lt (from_bounds a l asc)
    | inr ge ↦ rw ge (ltb→le k a ge, Above-bounds a k l (ltb→le k a ge) above)
  ]

  -- On an open store that holds the free pba records `l`, `get_free_pba_records(a + 1, b + 1, cb)`
  -- calls `cb` for the records with an lsn from `a + 1` up to but not including `b + 1`, in
  -- ascending order and with the pbas of the record, and changes nothing. Both `a` and `b` are
  -- below 2 ^ 63 - 2.
  pub get_lem :
      {B : Type 0} (cb : Callback B) (s : S) (l : List (ℕ × Pbas)) (last : ℤ) (a b : ℕ) (acc : B)
      → Represents law s l
      → a + 2 < 2 ^ 63
      → b + 2 < 2 ^ 63
      → get_free_pba_records st (pos (a + 1)) (pos (b + 1)) cb acc (opened sb disk mem s last)
        ≡ (ok (deliver cb (within a b l) acc), opened sb disk mem s last)
  unfolding get_free_pba_records
  get_lem {B} cb s l last a b acc rep fits fits' =
      let asc = ascending law s l rep in
      let number : to_store_lsn (pos (a + 1)) ≡ pos a = ground arith in
      let records : from a (law.held s) ≡ stored (from a l) =
        ap (λ (t : List (ℕ × Bytes)). from a t) rep.shows ∙ from-stored a l in
      rw (
        number,
        law.foreach_held (Result B) s a (deliver_record st (pos (b + 1)) cb) (ok acc),
        records,
        deliver_visit cb a b (from a l) acc fits' (from-IsAscending a l asc) (All-from a l rep.free)
            (from_bounds a l asc),
        within-from a b l asc,
      )

  -- On an open store that holds the free pba records `l`, after `add_free_pba_record(n + 1, p)` a
  -- read of the range of that lsn alone gives exactly `p`, also where the lsn had another record
  -- before. The pbas fit 64 bits and their record 32 bits of size, and `n + 3` is below 2 ^ 63.
  get-add :
      (s : S) (l : List (ℕ × Pbas)) (last : ℤ) (n : ℕ) (p : Pbas)
      → Represents law s l
      → IsFree (n, p)
      → n + 3 < 2 ^ 63
      → (s' : S) × (add_free_pba_record st (pos (n + 1)) p (opened sb disk mem s last)
          ≡ (ok tt, opened sb disk mem s' (pos (n + 1))))
        × (get_free_pba_records st
              (pos (n + 1))
              (pos (n + 1 + 1))
              gather
              []
              (opened sb disk mem s' (pos (n + 1)))
            ≡ (ok ((pos (n + 1), p) ∷ []), opened sb disk mem s' (pos (n + 1))))
  get-add s l last n p rep h room =
      let (s', run, rep') = add_lem st law sb disk mem s l last n p rep h in
      let here : within n (n + 1) (put n p l) ≡ (n, p) ∷ [] =
        within-put_self n p l (ascending law s l rep) in
      let object : HomeStateMachineStore S = opened sb disk mem s' (pos (n + 1)) in
      (
        s',
        run,
        get_lem gather s' (put n p l) (pos (n + 1)) n (n + 1) [] rep' (omega arith) (omega arith)
            ∙ ap (λ (t : List (ℕ × Pbas)). (ok (deliver gather t []), object)) here,
      )
