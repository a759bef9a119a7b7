-- ===== src/SmStore/Home.antt =====
-- HomeStateMachineStore as a StateMachineStore.
use home_replication.Base.{
  ℕ, zero, suc, ◌+◌, ◌≤◌, ◌≡◌, ◌⊎◌, inl, inr, refl, ap, List, All, Option, arith,
}
use home_replication.Base.Int.{pos}
use home_replication.Base.Exec.{ok, pure, ◌>>◌}
use home_replication.HomeStore.{HomeLogStore, RecordLog}
use home_replication.StateStore
use home_replication.StateStore.{HomeRsSuperblk, HomeStateMachineStore}
use home_replication.StateStore.Records.{opened, Represents, add_lem, remove_lem, flush_lem}
use home_replication.StateStore.Walk.{get_lem}
use home_replication.SmStore.{StateMachineStore, SmSpec, SmLaws}
use home_replication.SmStore.Calls.{SmCall, IsAdmitted, sm_call_run, sm_promised_run, sm_run_lem}

module _ {S : Type 0} (st : HomeLogStore S) where
  abbrev pub home_store : StateMachineStore (HomeStateMachineStore S)
  home_store = record {
    alloc_pbas = StateStore.alloc_pbas st;
    async_write = λ B. StateStore.async_write st;
    async_read = λ B. StateStore.async_read st;
    free_pba = StateStore.free_pba st;
    destroy = StateStore.destroy st >> pure tt;
    commit_lsn = StateStore.commit_lsn st;
    get_last_commit_lsn = StateStore.get_last_commit_lsn st;
    add_free_pba_record = StateStore.add_free_pba_record st;
    get_free_pba_records = λ B. StateStore.get_free_pba_records st;
    remove_free_pba_records_upto = StateStore.remove_free_pba_records_upto st;
    flush_free_pba_records = StateStore.flush_free_pba_records st;
  }

  module _ (law : RecordLog st) where
    -- The store is open, holds the records, and has the committed lsn in its superblock.
    pub record HomeHolds (r : HomeStateMachineStore S) (a : SmSpec) : Type 0 where
      pub sb : HomeRsSuperblk
      pub disk : Option HomeRsSuperblk
      pub mem : HomeRsSuperblk
      pub log : S
      pub last : ℕ
      pub is_open : r ≡ opened sb disk mem log (pos last)
      pub rep : Represents law log a.records
      pub committed : mem.commit_lsn ≡ a.commit

    some_record : (last : ℕ) → (m : ℕ) × ((last ≡ 0) ⊎ (m + 1 ≤ last))
    some_record zero = (0, inl refl)
    some_record (suc last) = (0, inr (omega arith))

    pub home_flushes :
        (r : HomeStateMachineStore S) (a : SmSpec)
        → HomeHolds r a
        → (r' : HomeStateMachineStore S) × (StateStore.flush_free_pba_records st r ≡ (ok tt, r'))
          × HomeHolds r' a
    home_flushes r a h =
        let (m, below) = some_record h.last in
        let (s, run, rep, durable) =
          flush_lem st law h.sb h.disk h.mem h.log a.records h.last m h.rep below in
        (
          opened h.sb h.disk h.mem s (pos h.last),
          rw h.is_open run,
          record {
            sb = h.sb;
            disk = h.disk;
            mem = h.mem;
            log = s;
            last = h.last;
            is_open = refl;
            rep = rep;
            committed = h.committed;
          },
        )

    unfoldable pub home_store_laws : SmLaws home_store
    unfolding StateStore.commit_lsn StateStore.get_last_commit_lsn
    home_store_laws = record {
      Holds = HomeHolds;
      commits = λ r a lsn h. (
        record r { sb_in_mem = record r.sb_in_mem { commit_lsn = lsn } },
        refl,
        record {
          sb = h.sb;
          disk = h.disk;
          mem = record h.mem { commit_lsn = lsn };
          log = h.log;
          last = h.last;
          is_open =
              ap
                (λ (r : HomeStateMachineStore S). record r {
                  sb_in_mem = record r.sb_in_mem { commit_lsn = lsn };
                })
                h.is_open;
          rep = h.rep;
          committed = refl;
        },
      );
      last_commit = λ r a h. rw (h.is_open, h.committed) refl;
      adds = λ r a n p h fits.
          let (s, run, rep) =
            add_lem st law h.sb h.disk h.mem h.log a.records (pos h.last) n p h.rep fits in
          (
            opened h.sb h.disk h.mem s (pos (n + 1)),
            rw h.is_open run,
            record {
              sb = h.sb;
              disk = h.disk;
              mem = h.mem;
              log = s;
              last = n + 1;
              is_open = refl;
              rep = rep;
              committed = h.committed;
            },
          );
      gets = λ B cb r a i j acc h lo hi.
          rw h.is_open
            (get_lem st law h.sb h.disk h.mem cb h.log a.records (pos h.last) i j acc h.rep lo hi);
      removes = λ r a n h.
          let (s, run, rep) =
            remove_lem st law h.sb h.disk h.mem h.log a.records (pos h.last) n h.rep in
          (
            opened h.sb h.disk h.mem s (pos 0),
            rw h.is_open run,
            record {
              sb = h.sb;
              disk = h.disk;
              mem = h.mem;
              log = s;
              last = 0;
              is_open = refl;
              rep = rep;
              committed = h.committed;
            },
          );
      flushes = home_flushes;
    }

    -- Take an open HomeStateMachineStore that holds the free pba records `a.records` and has the
    -- committed lsn `a.commit` in its superblock in memory. Every sequence of `commit_lsn`,
    -- `get_last_commit_lsn`, `add_free_pba_record`, `get_free_pba_records`,
    -- `remove_free_pba_records_upto` and `flush_free_pba_records` that `IsAdmitted` admits gives,
    -- through the interface StateMachineStore, the answers of `sm_promised_run`, a model on the
    -- list and the lsn alone, and leaves a store that holds the model's records and lsn.
    pub home_runs_as_promised :
        (cs : List SmCall) (r : HomeStateMachineStore S) (a : SmSpec)
        → HomeHolds r a
        → All IsAdmitted cs
        → (r' : HomeStateMachineStore S) × (sm_call_run home_store cs r
            ≡ ((sm_promised_run cs a).0, r'))
          × HomeHolds r' (sm_promised_run cs a).1
    unfolding home_store_laws
    home_runs_as_promised cs r a h admitted =
        sm_run_lem home_store home_store_laws cs r a h admitted
