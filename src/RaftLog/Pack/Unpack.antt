-- ===== src/RaftLog/Pack/Unpack.antt =====
-- What `apply_pack` of HomeRaftLogStore makes of a packed buffer.
use home_replication.Base.{
  ℕ, ◌+◌, ◌^◌, ◌<◌, ◌≡◌, ◌∙◌, refl, ap, ◌++◌, ◌∷◌, [], List, map, Option, arith, length, All,
  append_assoc, append-nil, length-append,
}
use home_replication.Base.Int.{ℤ, pos, to_int, ◌-ℤ◌, ◌+ℤ◌}
use home_replication.Base.Exec.{ok}
use home_replication.Bytes.{Bytes, le_bytes}
use home_replication.HomeStore.{HomeLogStore, AppendLog}
use home_replication.Nuraft.{LogEntry, Nuraft, BufferLaws}
use home_replication.RaftLog.{append, HomeRaftLogStore, to_store_lsn}
use home_replication.RaftLog.Codec.{IsEntry}
use home_replication.RaftLog.Represents.{
  opened, Represents, io_blob-small, Represents-append, Represents-flush,
}
use home_replication.RaftLog.Appends.{next_slot_lem}
use home_replication.RaftLog.Pack.{unpack, align_by, apply_pack, apply_pack_by}
use home_replication.RaftLog.Pack.Layout.{framed}

-- A buffer that holds the entries `xs` in the form of `pack`. The number of entries is an int32_t,
-- and so is the length of each record.
pub record IsPack {nu : Nuraft} (bufs : BufferLaws nu) (b : nu.Buffer) (xs : List LogEntry)
    : Type 0 where
  pub packed : bufs.written b ≡ le_bytes 4 (length xs) ++ framed (map nu.serialize xs)
  pub few : length xs < 2 ^ 31
  pub entries : All (IsEntry nu) xs
  pub small : All (λ e. length (nu.serialize e) < 2 ^ 31) xs

module _ {S : Type 0} (st : HomeLogStore S) (nu : Nuraft) (law : AppendLog st)
    (bufs : BufferLaws nu) (id : Option ℕ) (dummy : LogEntry) where
  abbrev log_at : S → HomeRaftLogStore S
  log_at s = opened id dummy s

  -- The loop appends the packed records in order.
  unpack_lem :
      (xs : List LogEntry) (b : nu.Buffer) (rest : Bytes) (s : S) (first : ℕ) (es : List LogEntry)
      → bufs.unread b ≡ framed (map nu.serialize xs) ++ rest
      → Represents nu law s first es
      → All (IsEntry nu) xs
      → All (λ e. length (nu.serialize e) < 2 ^ 31) xs
      → first + length es + length xs + 2 < 2 ^ 63
      → (b' : nu.Buffer) × (s' : S) × (unpack st nu (length xs) b (log_at s) ≡ (ok b', log_at s'))
        × Represents nu law s' first (es ++ xs)
  unfolding unpack
  unpack_lem [] b rest s first es front rep entries small room =
      (b, s, refl, rw (append-nil es) rep)
  unpack_lem (e ∷ xs) b rest s first es front rep (he, entries) (small, smalls) room =
      let x : Bytes = nu.serialize e in
      let tail : Bytes = framed (map nu.serialize xs) in
      let front' : bufs.unread b ≡ le_bytes 4 (length x) ++ (x ++ (tail ++ rest)) =
        front
        ∙ append_assoc (le_bytes 4 (length x)) (x ++ tail) rest
        ∙ ap (λ l. le_bytes 4 (length x) ++ l) (append_assoc x tail rest) in
      let (c, got, left) = bufs.get_bytes_front b x (tail ++ rest) front' small in
      let t : S = (st.append_async s x).1 in
      let rep' : Represents nu law t first (es ++ (e ∷ [])) =
        Represents-append st nu law s first es e rep he (omega arith) in
      let (b', s', run, rep'') =
        unpack_lem xs c rest t first (es ++ (e ∷ [])) left rep' entries smalls
          (omega (arith, length-append es (e ∷ []))) in
      (
        b',
        s',
        rw (got, io_blob-small x he.size_fits, run),
        rw (append_assoc es (e ∷ []) xs) at rep'',
      )

  module _ (s : S) (first : ℕ) (es xs : List LogEntry) (b : nu.Buffer)
      (rep : Represents nu law s first es) (pack : IsPack bufs b xs) where
    -- `apply_pack` behind the step that makes the index the next slot: `u` is the store before the
    -- flush at the end.
    pub apply_flushed :
        (index j : ℕ) (t : S) (ts : List LogEntry)
        → align_by st nu (append st nu) index (first + length es + 1) (log_at s) ≡ (ok j, log_at t)
        → Represents nu law t first ts
        → first + length ts + length xs + 2 < 2 ^ 63
        → (u : S) × (apply_pack st nu index b (log_at s)
            ≡ (ok tt, log_at (st.flush_sync u (to_store_lsn j +ℤ pos (length xs) -ℤ pos 1))))
          × Represents nu law u first (ts ++ xs)
    unfolding apply_pack apply_pack_by
    apply_flushed index j t ts aligned rep' room =
        let (rest, whole) = bufs.rewound b in
        let front : bufs.unread (nu.rewind b)
            ≡ le_bytes 4 (length xs) ++ (framed (map nu.serialize xs) ++ rest) =
          whole
          ∙ ap (λ l. l ++ rest) pack.packed
          ∙ append_assoc (le_bytes 4 (length xs)) (framed (map nu.serialize xs)) rest in
        let (c, counted, left) =
          bufs.get_int_front (nu.rewind b) (length xs) _ front (omega (arith, pack.few)) in
        let (d, u, run, rep'') =
          unpack_lem xs c rest t first ts left rep' pack.entries pack.small room in
        let count : to_int 32 (length xs) ≡ pos (length xs) = ground (arith, pack.few) in
        (
          u,
          rw (counted, next_slot_lem st nu law id dummy s first es rep, count, aligned, run),
          rep'',
        )

    pub apply_aligned :
        (index j : ℕ) (t : S) (ts : List LogEntry)
        → align_by st nu (append st nu) index (first + length es + 1) (log_at s) ≡ (ok j, log_at t)
        → Represents nu law t first ts
        → first + length ts + length xs + 2 < 2 ^ 63
        → (s' : S) × (apply_pack st nu index b (log_at s) ≡ (ok tt, log_at s'))
          × Represents nu law s' first (ts ++ xs)
    apply_aligned index j t ts aligned rep' room =
        let (u, run, rep'') = apply_flushed index j t ts aligned rep' room in
        let z : ℤ = to_store_lsn j +ℤ pos (length xs) -ℤ pos 1 in
        (st.flush_sync u z, run, Represents-flush st nu law u first (ts ++ xs) z rep'')
