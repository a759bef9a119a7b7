-- ===== src/StateMachine.antt =====
-- ReplicaStateMachine of lib/state_machine/state_machine.{h,cpp}, over a state machine store.
pub mod Restart
pub mod Tests
use home_replication.Base.{
  ℕ, ◌%◌, ◌^◌, ◌<◌, ◌≡◌, ◌∙◌, refl, ap, Option, none, some, Bool, false, List, [], ◌∷◌, All, arith,
}
use home_replication.Base.Int.{ℤ, pos, to_uint}
use home_replication.Base.Exec.{ok, Exec, pure, ◌>>=◌}
use home_replication.Bytes.{Bytes}
use home_replication.HomeStore.{HomeLogStore, RecordLog}
use home_replication.StateStore
use home_replication.StateStore.{HomeStateMachineStore}
use home_replication.SmStore.{StateMachineStore, SmSpec, SmLaws}
use home_replication.SmStore.Calls.{
  SmCall, commit_lsn, get_last_commit_lsn, add_free_pba_record, get_free_pba_records,
  remove_free_pba_records_upto, flush_free_pba_records, IsAdmitted, sm_call_run, sm_promised,
  sm_promised_run, sm_run_lem,
}
use home_replication.SmStore.Home.{home_store, HomeHolds, home_store_laws}

module _ {T : Type 0} (store : StateMachineStore T) where
  unfoldable pub last_commit_index : Exec T ℕ
  last_commit_index = do lsn ← store.get_last_commit_lsn; pure (to_uint 64 lsn)

  -- `commit` only logs; `none` is the null pointer that it returns.
  unfoldable pub commit : ℕ → Bytes → Exec T (Option Bytes)
  commit log_idx buf = pure none

  -- A snapshot is never applied, and there is none.
  unfoldable pub apply_snapshot : Bytes → Exec T Bool
  apply_snapshot s = pure false

  unfoldable pub last_snapshot : Exec T (Option Bytes)
  last_snapshot = pure none

-- `create_snapshot` calls the handler, if there is one, with false and no exception.
unfoldable pub create_snapshot : {B : Type 0} → Option (Bool → B → B) → B → B
create_snapshot none acc = acc
create_snapshot (some when_done) acc = when_done false acc

-- A commit on the store of a replica set changes the superblock in memory alone.
last_commit_lem :
    {S : Type 0} (st : HomeLogStore S) (r : HomeStateMachineStore S) (n : ℕ)
    → n < 2 ^ 63
    → (r' : HomeStateMachineStore S) × (StateStore.commit_lsn st (pos n) r ≡ (ok tt, r'))
      × (last_commit_index (home_store st) r' ≡ (ok n, r'))
      × (r'.sb_on_disk ≡ r.sb_on_disk)
unfolding last_commit_index StateStore.commit_lsn StateStore.get_last_commit_lsn
last_commit_lem st r n h =
    let fits : n % 2 ^ 64 ≡ n = omega arith in
    (record r { sb_in_mem = record r.sb_in_mem { commit_lsn = pos n } }, refl, rw fits refl, refl)

-- A call other than `commit_lsn`.
abbrev pub IsOther : SmCall → Type 0
IsOther (commit_lsn n) = ⊥
IsOther get_last_commit_lsn = Unit {0}
IsOther (add_free_pba_record n p) = Unit {0}
IsOther (get_free_pba_records i j) = Unit {0}
IsOther (remove_free_pba_records_upto n) = Unit {0}
IsOther flush_free_pba_records = Unit {0}

commit-promised : (c : SmCall) (a : SmSpec) → IsOther c → (sm_promised c a).1.commit ≡ a.commit
unfolding sm_promised
commit-promised (commit_lsn n) a h = absurd h
commit-promised get_last_commit_lsn a h = refl
commit-promised (add_free_pba_record n p) a h = refl
commit-promised (get_free_pba_records i j) a h = refl
commit-promised (remove_free_pba_records_upto n) a h = refl
commit-promised flush_free_pba_records a h = refl

commit-promised_run :
    (cs : List SmCall) (a : SmSpec) → All IsOther cs → (sm_promised_run cs a).1.commit ≡ a.commit
unfolding sm_promised_run
commit-promised_run [] a h = refl
commit-promised_run (c ∷ cs) a (h, hs) =
    commit-promised_run cs (sm_promised c a).1 hs ∙ commit-promised c a h

last_commit_promised :
    {T : Type 0} (store : StateMachineStore T) (law : SmLaws store) (cs : List SmCall) (t : T)
    (a : SmSpec) (n : ℕ)
    → law.Holds t a
    → All IsAdmitted cs
    → All IsOther cs
    → n < 2 ^ 63
    → (t' : T) × ((sm_call_run store (commit_lsn (pos n) ∷ cs) t).1 ≡ t')
      × (last_commit_index store t' ≡ (ok n, t'))
unfolding last_commit_index sm_promised_run sm_promised
last_commit_promised store law cs t a n rep admitted others h =
    let (t', run, rep') = sm_run_lem store law (commit_lsn (pos n) ∷ cs) t a rep (tt, admitted) in
    let a' : SmSpec = record a { commit = pos n } in
    let fits : n % 2 ^ 64 ≡ n = omega arith in
    (
      t',
      ap (λ p. p.1) run,
      rw (law.last_commit t' (sm_promised_run cs a').1 rep', commit-promised_run cs a' others, fits)
          refl,
    )

-- On a HomeStateMachineStore that is open, after `commit_lsn` of an lsn below 2 ^ 63 and then any
-- admitted sequence of calls without another `commit_lsn`, `last_commit_index` of the state machine
-- over it returns that lsn.
pub last_commit_kept :
    {S : Type 0} (st : HomeLogStore S) (law : RecordLog st) (cs : List SmCall)
    (r : HomeStateMachineStore S) (a : SmSpec) (n : ℕ)
    → HomeHolds st law r a
    → All IsAdmitted cs
    → All IsOther cs
    → n < 2 ^ 63
    → (r' : HomeStateMachineStore S) × ((sm_call_run (home_store st) (commit_lsn (pos n) ∷ cs) r).1
        ≡ r')
      × (last_commit_index (home_store st) r' ≡ (ok n, r'))
unfolding home_store_laws
last_commit_kept st law cs r a n holds admitted others h =
    last_commit_promised (home_store st) (home_store_laws st law) cs r a n holds admitted others h
