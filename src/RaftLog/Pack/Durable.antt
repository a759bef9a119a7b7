-- ===== src/RaftLog/Pack/Durable.antt =====
-- `apply_pack` of HomeRaftLogStore before a crash of the process.
use home_replication.Base.{
  ℕ, suc, ◌+◌, ◌-◌, ◌^◌, ◌≤◌, ◌<◌, ◌≡◌, ◌∙◌, ap, sym, Option, some, List, ◌++◌, length, take,
  get_elem?, get_elem?-lt, get_elem?-drop, drop-append, length-take, length-append, arith,
  All-get_elem?,
}
use home_replication.Base.Int.{pos, ◌+ℤ◌, ◌-ℤ◌}
use home_replication.Base.Exec.{ok}
use home_replication.HomeStore.{HomeLogStore, AppendLog, DurableLog}
use home_replication.Nuraft.{LogEntry, Nuraft, EntryFormat, BufferLaws}
use home_replication.RaftLog.{HomeRaftLogStore, to_store_lsn, entry_at}
use home_replication.RaftLog.Codec.{IsEntry}
use home_replication.RaftLog.Represents.{opened, Represents, Represents-flush, next_of}
use home_replication.RaftLog.Reads.{at_held}
use home_replication.RaftLog.Durable.{Reopens, read_again}
use home_replication.RaftLog.Pack.{apply_pack}
use home_replication.RaftLog.Pack.Unpack.{IsPack}
use home_replication.RaftLog.Pack.Transfer.{apply_pack_flushed}

-- The number of the last record of the pack.
last_packed :
    (i n : ℕ) → i + n + 1 < 2 ^ 63 → to_store_lsn (i + 1) +ℤ pos (suc n) -ℤ pos 1 ≡ pos (i + n)
last_packed i n h = ground arith

behind_prefix :
    (i first k : ℕ) (es xs : List LogEntry)
    → first ≤ i
    → i ≤ first + length es
    → get_elem? (take (i - first) es ++ xs) (i + k - first) ≡ get_elem? xs k
behind_prefix i first k es xs lo hi =
    let m : ℕ = i - first in
    let size : m ≡ length (take m es) = omega (arith, length-take m es) in
    let place : i + k - first ≡ m + k = omega arith in
    ap (λ (n : ℕ). get_elem? (take m es ++ xs) n) place
    ∙ sym (get_elem?-drop m (take m es ++ xs) k)
    ∙ ap (λ (l : List LogEntry). get_elem? l k) (drop-append m (take m es) xs size)

module _ {S : Type 0} (st : HomeLogStore S) (nu : Nuraft) (law : AppendLog st)
    (format : EntryFormat nu) (bufs : BufferLaws nu) (durable : DurableLog law) (id : Option ℕ)
    (dummy : LogEntry) where
  -- Take an open log that holds the entries `es` from the raft index `first + 1` on, in records of
  -- nuraft's layout, over a log store that keeps the laws of `DurableLog`. `apply_pack(i + 1)` of a
  -- pack of the entries `xs`, at an index that is held or at the next slot, succeeds, and when the
  -- process then crashes, a new object that is given the store as it is opened again reads back, by
  -- `entry_at`, every entry of the pack under its index. The indexes stay below 2 ^ 63.
  pub apply_pack_durable :
      (s : S) (first : ℕ) (es xs : List LogEntry) (b : nu.Buffer)
      → Represents nu law s first es
      → IsPack bufs b xs
      → (i : ℕ) → first ≤ i
      → i ≤ first + length es
      → first + length es + length xs + 3 < 2 ^ 63
      → (logstore_id k : ℕ) (e : LogEntry) → get_elem? xs k ≡ some e
      → (s' : S) × (r : HomeRaftLogStore S) × (apply_pack st nu (i + 1) b (opened id dummy s)
          ≡ (ok tt, opened id dummy s'))
        × Reopens st nu law format durable logstore_id s' r
        × (entry_at st nu (i + k + 1) r ≡ (ok e, r))
  apply_pack_durable s first es xs b rep packed i lo hi room logstore_id k e there =
      let n : ℕ = length xs - 1 in
      let lt : k < length xs = get_elem?-lt xs k e there in
      let count : length xs ≡ suc n = omega arith in
      let log : List LogEntry = take (i - first) es ++ xs in
      let size : length log ≡ (i - first) + length xs =
        omega (arith, length-append (take (i - first) es) xs, length-take (i - first) es) in
      let (u, run, rep') =
        apply_pack_flushed st nu law bufs id dummy s first es xs b rep packed i lo hi room in
      let z : to_store_lsn (i + 1) +ℤ pos (length xs) -ℤ pos 1 ≡ pos (i + n) =
        ap (λ (m : ℕ). to_store_lsn (i + 1) +ℤ pos m -ℤ pos 1) count
        ∙ last_packed i n (omega arith) in
      let s' : S = st.flush_sync u (pos (i + n)) in
      let rep'' = Represents-flush st nu law u first log (pos (i + n)) rep' in
      let here : get_elem? log (i + k - first) ≡ some e =
        behind_prefix i first k es xs lo hi ∙ there in
      let on_device : i + k < durable.flushed s' =
        omega (arith, durable.flush_upto u (i + n) (omega (arith, next_of nu law rep'))) in
      let (r, again, reads) =
        read_again st nu law format durable logstore_id s' (i + k) e (omega arith) on_device
          (at_held st nu law format id dummy s' first log rep'' (i + k) e (omega arith) here)
          (All-get_elem? (IsEntry nu) log (i + k - first) e rep'.entries here) in
      (s', r, rw z at run, again, reads)
