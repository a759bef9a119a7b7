-- ===== src/RaftLog/Pack/Transfer.antt =====
-- `apply_pack` of HomeRaftLogStore, and a range that goes from one log to another.
use home_replication.Base.{
  ℕ, ◌+◌, ◌-◌, ◌^◌, ◌≤◌, ◌<◌, ◌≡◌, ◌∙◌, ap, sym, ◌++◌, ◌∷◌, [], List, map, Option, arith, length,
  take, drop, All, All-take, All-drop, length-take, length-drop, Bool-cases, ltb, lt→ltb, le→ltb,
  ltb→lt, tests, inl, inr, take-length, take-map, drop-map,
}
use home_replication.Base.Int.{ℤ, pos, last_of, ◌+ℤ◌, ◌-ℤ◌}
use home_replication.Base.Exec.{ok}
use home_replication.Bytes.{le_bytes}
use home_replication.HomeStore.{HomeLogStore, AppendLog}
use home_replication.Nuraft.{LogEntry, Nuraft, BufferLaws}
use home_replication.RaftLog.{append, HomeRaftLogStore, to_store_lsn}
use home_replication.RaftLog.Codec.{IsEntry}
use home_replication.RaftLog.Represents.{opened, Represents, Represents-flush, store_lsn-before}
use home_replication.RaftLog.Appends.{rolled_back}
use home_replication.RaftLog.Pack.{align_by, fill_upto_by, apply_pack, pack}
use home_replication.RaftLog.Pack.Layout.{framed, IsSmall, pack_lem}
use home_replication.RaftLog.Pack.Unpack.{IsPack, apply_flushed, apply_aligned}

module _ {S : Type 0} (st : HomeLogStore S) (nu : Nuraft) (law : AppendLog st)
    (bufs : BufferLaws nu) (id : Option ℕ) (dummy : LogEntry) where
  abbrev log_at : S → HomeRaftLogStore S
  log_at s = opened id dummy s

  module _ (s : S) (first : ℕ) (es xs : List LogEntry) (b : nu.Buffer)
      (rep : Represents nu law s first es) (packed : IsPack bufs b xs) where
    align_behind :
        (i : ℕ)
        → i < first + length es
        → i + 1 < 2 ^ 63
        → align_by st nu (append st nu) (i + 1) (first + length es + 1) (log_at s)
          ≡ (ok (i + 1), log_at (st.rollback_async s (last_of i)))
    unfolding align_by
    align_behind i h fits =
        rw (lt→ltb (i + 1) (first + length es + 1) (omega arith), store_lsn-before i fits)

    align_same :
        (i : ℕ)
        → i ≡ first + length es
        → align_by st nu (append st nu) (i + 1) (first + length es + 1) (log_at s)
          ≡ (ok (i + 1), log_at s)
    unfolding align_by
    align_same i h =
        let slot : ℕ = first + length es + 1 in
        rw (le→ltb (i + 1) slot (omega arith), le→ltb slot (i + 1) (omega arith))

    align_ahead :
        (i : ℕ)
        → first + length es < i
        → i + 2 < 2 ^ 63
        → align_by st nu (append st nu) (i + 1) (first + length es + 1) (log_at s)
          ≡ (ok (i + 2), log_at s)
    unfolding align_by fill_upto_by
    align_ahead i h fits =
        let slot : ℕ = first + length es + 1 in
        let no_rounds : slot - (i + 1) ≡ 0 = omega arith in
        rw
          (
            le→ltb (i + 1) slot (omega arith),
            lt→ltb slot (i + 1) (omega arith),
            no_rounds,
            le→ltb (i + 1) slot (omega arith),
          )
          (ap (λ (n : ℕ). (ok n, log_at s)) (omega arith))

    -- Where the index is held or is the next slot, the flush at the end of `apply_pack` is up to the
    -- last entry of the pack.
    pub apply_pack_flushed :
        (i : ℕ)
        → first ≤ i
        → i ≤ first + length es
        → first + length es + length xs + 3 < 2 ^ 63
        → (u : S) × (apply_pack st nu (i + 1) b (log_at s)
            ≡ (ok tt, log_at (st.flush_sync u (to_store_lsn (i + 1) +ℤ pos (length xs) -ℤ pos 1))))
          × Represents nu law u first (take (i - first) es ++ xs)
    apply_pack_flushed i lo hi room = elim (Bool-cases (ltb i (first + length es))) [
      | inl behind ↦
          apply_flushed st nu law bufs id dummy s first es xs b rep packed (i + 1) (i + 1)
            (st.rollback_async s (last_of i)) (take (i - first) es)
            (align_behind i (ltb→lt _ _ behind) (omega arith))
            (rolled_back st nu law id dummy s first es rep i lo hi)
            (omega (arith, length-take (i - first) es))
      | inr same ↦
          let here : i ≡ first + length es = omega tests in
          rw (take-length (i - first) es (omega arith)) (
            apply_flushed st nu law bufs id dummy s first es xs b rep packed (i + 1) (i + 1) s es
              (align_same i here) rep (omega arith))
    ]

    -- On an open log that holds the entries `es` from the raft index `first + 1` on, `apply_pack(i
    -- + 1)` of a pack of the entries `xs`, at an index that is held or at the next slot, keeps the
    -- entries below that index, drops those from it on and appends `xs`. The indexes stay below 2 ^
    -- 63 with the entries of the pack.
    pub apply_pack_lem :
        (i : ℕ)
        → first ≤ i
        → i ≤ first + length es
        → first + length es + length xs + 3 < 2 ^ 63
        → (s' : S) × (apply_pack st nu (i + 1) b (log_at s) ≡ (ok tt, log_at s'))
          × Represents nu law s' first (take (i - first) es ++ xs)
    apply_pack_lem i lo hi room =
        let (u, run, rep') = apply_pack_flushed i lo hi room in
        let z : ℤ = to_store_lsn (i + 1) +ℤ pos (length xs) -ℤ pos 1 in
        (st.flush_sync u z, run, Represents-flush st nu law u first _ z rep')

    -- On an open log that holds the entries `es` from the raft index `first + 1` on, `apply_pack(i
    -- + 1)` of a pack of the entries `xs` at an index beyond the next slot adds no dummy entry:
    -- `xs` is appended at the next slot. The indexes stay below 2 ^ 63.
    pub apply_pack_gap :
        (i : ℕ)
        → first + length es < i
        → i + 2 < 2 ^ 63
        → first + length es + length xs + 2 < 2 ^ 63
        → (s' : S) × (apply_pack st nu (i + 1) b (log_at s) ≡ (ok tt, log_at s'))
          × Represents nu law s' first (es ++ xs)
    apply_pack_gap i ahead fits room =
        apply_aligned st nu law bufs id dummy s first es xs b rep packed (i + 1) (i + 2) s es
          (align_ahead i ahead fits) rep room

  small-lt :
      (xs : List LogEntry)
      → All IsSmall (map nu.serialize xs)
      → All (λ e. length (nu.serialize e) < 2 ^ 31) xs
  small-lt [] h = tt
  small-lt (e ∷ xs) (he, hxs) = (omega arith, small-lt xs hxs)

  -- Take an open log that holds the entries `es` from the raft index `first + 1` on, with records
  -- of at most 124 bytes, and another that holds `fs` from `first' + 1` on. `pack(a + 1, k)` of a
  -- range that the first holds, with `k` below 2 ^ 24 - 1, succeeds and leaves it unchanged, and
  -- `apply_pack(i + 1)` of that buffer on the second, at an index that it holds or at its next
  -- slot, succeeds: the second then has its own entries below the index `i + 1`, behind them the
  -- `k` entries of the first from `a + 1` on, and no others. Its indexes stay below 2 ^ 63 with `k`
  -- more entries.
  pub pack_transfer :
      (s t : S) (first first' : ℕ) (es fs : List LogEntry) (a k i : ℕ)
      → Represents nu law s first es
      → Represents nu law t first' fs
      → first ≤ a
      → a + k ≤ first + length es
      → k < 2 ^ 24 - 1
      → All IsSmall (map nu.serialize es)
      → first' ≤ i
      → i ≤ first' + length fs
      → first' + length fs + k + 3 < 2 ^ 63
      → (b : nu.Buffer) × (t' : S) × (pack st nu (a + 1) (pos k) (log_at s) ≡ (ok b, log_at s))
        × (apply_pack st nu (i + 1) b (log_at t) ≡ (ok tt, log_at t'))
        × Represents nu law t' first' (take (i - first') fs ++ take k (drop (a - first) es))
  pack_transfer s t first first' es fs a k i rep rep' lo hi few small lo' hi' room =
      let xs : List LogEntry = take k (drop (a - first) es) in
      let (b, run, bytes) =
        pack_lem st nu law bufs id dummy s first es a k rep lo (omega (arith, rep.bounded)) few
          small in
      let count : length xs ≡ k =
        omega (arith, length-take k (drop (a - first) es), length-drop (a - first) es) in
      let chosen : All IsSmall (map nu.serialize xs) =
        rw (← take-map nu.serialize k (drop (a - first) es), ← drop-map nu.serialize (a - first) es)
          (All-take IsSmall k (drop (a - first) (map nu.serialize es))
            (All-drop IsSmall (a - first) (map nu.serialize es) small)) in
      let packed : IsPack bufs b xs = record {
        packed = bytes ∙ ap (λ (n : ℕ). le_bytes 4 n ++ framed (map nu.serialize xs)) (sym count);
        few = omega arith;
        entries =
            All-take (IsEntry nu) k (drop (a - first) es)
              (All-drop (IsEntry nu) (a - first) es rep.entries);
        small = small-lt xs chosen;
      } in
      let (t', run', rep'') = apply_pack_lem t first' fs xs b rep' packed i lo' hi' (omega arith) in
      (b, t', run, run', rep'')
