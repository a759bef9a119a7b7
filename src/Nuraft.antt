-- ===== src/Nuraft.antt =====
-- What the program uses of the nuraft library, which it does not implement: log entries and their
-- serialisation, and nuraft::buffer as far as `pack` and `apply_pack` use it.
pub mod Memory
use home_replication.Base.{ℕ, ◌+◌, ◌%◌, ◌^◌, ◌≤◌, ◌<◌, ◌≡◌, ◌++◌, ◌∷◌, [], length}
use home_replication.Base.Exec.{Result, ok, err, overflow_error}
use home_replication.Bytes.{Bytes, le_bytes}

-- nuraft::log_entry: its term, the byte of its log_val_type, and the contents of its buffer.
pub record LogEntry : Type 0 where
  pub term : ℕ
  pub val_type : ℕ
  pub buf : Bytes

pub record Nuraft : Type 1 where
  -- log_entry::serialize()
  pub serialize : LogEntry → Bytes
  -- log_val_type::app_log
  pub app_log : ℕ
  -- nuraft::buffer
  pub Buffer : Type 0
  pub alloc : ℕ → Result Buffer
  pub size : Buffer → ℕ
  pub pos : Buffer → ℕ
  pub rewind : Buffer → Buffer
  pub put_int : Buffer → ℕ → Result Buffer
  pub put_bytes : Buffer → Bytes → Result Buffer
  pub expand : Buffer → ℕ → Result Buffer
  pub get_int : Buffer → Result (ℕ × Buffer)
  pub get_bytes : Buffer → Result (Bytes × Buffer)

-- The layout of a serialised entry: the term in 8 bytes, lowest first, the type, the contents.
pub record EntryFormat (nu : Nuraft) : Type 0 where
  pub layout : (e : LogEntry) → nu.serialize e ≡ le_bytes 8 e.term ++ (e.val_type ∷ e.buf)

-- nuraft::buffer: a block of `size` bytes with a position. `written` are the bytes before the
-- position of a buffer that is being filled, `unread` those behind it in one that is being read.
-- Integers take 4 bytes, lowest first; a byte string stands behind its length.
pub record BufferLaws (nu : Nuraft) : Type 0 where
  pub written : nu.Buffer → Bytes
  pub unread : nu.Buffer → Bytes
  pub pos_written : (b : nu.Buffer) → nu.pos b ≡ length (written b)
  pub alloc_fresh :
      (n : ℕ)
      → n < 2 ^ 31
      → (b : nu.Buffer) × (nu.alloc n ≡ ok b) × (written b ≡ []) × (nu.size b ≡ n)
  pub put_int_room :
      (b : nu.Buffer) (i : ℕ)
      → length (written b) + 4 ≤ nu.size b
      → (c : nu.Buffer) × (nu.put_int b i ≡ ok c)
        × (written c ≡ written b ++ le_bytes 4 i)
        × (nu.size c ≡ nu.size b)
  pub put_bytes_room :
      (b : nu.Buffer) (bs : Bytes)
      → length (written b) + 4 + length bs ≤ nu.size b
      → (c : nu.Buffer) × (nu.put_bytes b bs ≡ ok c)
        × (written c ≡ written b ++ (le_bytes 4 (length bs) ++ bs))
        × (nu.size c ≡ nu.size b)
  pub put_bytes_full :
      (b : nu.Buffer) (bs : Bytes)
      → nu.size b < length (written b) + 4 + length bs
      → nu.put_bytes b bs ≡ err overflow_error
  pub expand_room :
      (b : nu.Buffer) (n : ℕ)
      → nu.size b ≤ n
      → n < 2 ^ 31
      → (c : nu.Buffer) × (nu.expand b n ≡ ok c) × (written c ≡ written b) × (nu.size c ≡ n)
  pub rewound : (b : nu.Buffer) → (rest : Bytes) × (unread (nu.rewind b) ≡ written b ++ rest)
  pub get_int_front :
      (b : nu.Buffer) (i : ℕ) (rest : Bytes)
      → unread b ≡ le_bytes 4 i ++ rest
      → i < 2 ^ 32
      → (c : nu.Buffer) × (nu.get_int b ≡ ok (i, c)) × (unread c ≡ rest)
  pub get_bytes_front :
      (b : nu.Buffer) (bs rest : Bytes)
      → unread b ≡ le_bytes 4 (length bs) ++ (bs ++ rest)
      → length bs < 2 ^ 31
      → (c : nu.Buffer) × (nu.get_bytes b ≡ ok (bs, c)) × (unread c ≡ rest)
