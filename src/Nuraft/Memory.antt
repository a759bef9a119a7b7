-- ===== src/Nuraft/Memory.antt =====
-- The part of nuraft that the program uses, in memory: it shows that the laws can be met, and the
-- tests run on it.
use home_replication.Base.{
  ℕ, ◌+◌, ◌^◌, ◌≤◌, ◌<◌, ◌≡◌, ◌∙◌, refl, ap, sym, [], ◌∷◌, ◌++◌, arith, length, take, drop,
  take-append, drop-append, length-append, ltb, leb, if◌then◌else◌,
}
use home_replication.Base.Exec.{Result, ok, err, out_of_range, overflow_error}
use home_replication.Bytes.{Bytes, le_bytes, le_value, length-le_bytes, le_value-le_bytes}
use home_replication.Nuraft.{Nuraft, EntryFormat, BufferLaws}

-- The bytes before the position and behind it.
pub record Block : Type 0 where
  pub front : Bytes
  pub back : Bytes
  pub size : ℕ

unfoldable pub put_front : Block → Bytes → Result Block
put_front b bs =
    if leb (length b.front + length bs) b.size
    then ok (record b { front = b.front ++ bs })
    else err overflow_error

unfoldable pub get_front : Block → Result (ℕ × Block)
get_front b =
    if leb 4 (length b.back)
    then ok (le_value (take 4 b.back), record b { back = drop 4 b.back })
    else err overflow_error

unfoldable pub get_string : Block → Result (Bytes × Block)
get_string b =
    let n : ℕ = le_value (take 4 b.back) in
    if leb (4 + n) (length b.back)
    then ok (take n (drop 4 b.back), record b { back = drop n (drop 4 b.back) })
    else err overflow_error

abbrev pub memory_nuraft : Nuraft
memory_nuraft = record {
  serialize = λ e. le_bytes 8 e.term ++ (e.val_type ∷ e.buf);
  app_log = 1;
  Buffer = Block;
  alloc = λ n.
      if ltb n (2 ^ 31) then ok (record { front = []; back = []; size = n }) else err out_of_range;
  size = λ b. b.size;
  pos = λ b. length b.front;
  rewind = λ b. record b { front = []; back = b.front ++ b.back };
  put_int = λ b i. put_front b (le_bytes 4 i);
  put_bytes = λ b bs. put_front b (le_bytes 4 (length bs) ++ bs);
  expand = λ b n. if ltb n (2 ^ 31) then ok (record b { size = n }) else err out_of_range;
  get_int = get_front;
  get_bytes = get_string;
}

pub memory_format : EntryFormat memory_nuraft
memory_format = record { layout = λ e. refl }

put_front_room :
    (b : Block) (bs : Bytes)
    → length b.front + length bs ≤ b.size
    → put_front b bs ≡ ok (record b { front = b.front ++ bs })
unfolding put_front
put_front_room b bs h = ground arith

put_front_full :
    (b : Block) (bs : Bytes)
    → b.size < length b.front + length bs
    → put_front b bs ≡ err overflow_error
unfolding put_front
put_front_full b bs h = ground arith

length-prefixed : (bs : Bytes) → length (le_bytes 4 (length bs) ++ bs) ≡ 4 + length bs
length-prefixed bs =
    omega (arith, length-append (le_bytes 4 (length bs)) bs, length-le_bytes 4 (length bs))

get_front_lem :
    (b : Block) (i : ℕ) (rest : Bytes)
    → b.back ≡ le_bytes 4 i ++ rest
    → i < 2 ^ 32
    → get_front b ≡ ok (i, record b { back = rest })
unfolding get_front
get_front_lem b i rest h fits =
    let four : length (le_bytes 4 i) ≡ 4 = length-le_bytes 4 i in
    let t : take 4 b.back ≡ le_bytes 4 i =
      ap (λ (l : Bytes). take 4 l) h ∙ take-append 4 (le_bytes 4 i) rest (sym four) in
    let d : drop 4 b.back ≡ rest =
      ap (λ (l : Bytes). drop 4 l) h ∙ drop-append 4 (le_bytes 4 i) rest (sym four) in
    let n : length b.back ≡ 4 + length rest =
      ap (λ (l : Bytes). length l) h ∙ omega (arith, length-append (le_bytes 4 i) rest) in
    let v = le_value-le_bytes 4 i (omega arith) in ground (arith, t, d, n, v)

get_string_lem :
    (b : Block) (bs rest : Bytes)
    → b.back ≡ le_bytes 4 (length bs) ++ (bs ++ rest)
    → length bs < 2 ^ 31
    → get_string b ≡ ok (bs, record b { back = rest })
unfolding get_string
get_string_lem b bs rest h fits =
    let word : Bytes = le_bytes 4 (length bs) in
    let four : length word ≡ 4 = length-le_bytes 4 (length bs) in
    let v : le_value (take 4 b.back) ≡ length bs =
      ap (λ (l : Bytes). le_value (take 4 l)) h
      ∙ ap le_value (take-append 4 word (bs ++ rest) (sym four))
      ∙ le_value-le_bytes 4 (length bs) (omega arith) in
    let d : drop 4 b.back ≡ bs ++ rest =
      ap (λ (l : Bytes). drop 4 l) h ∙ drop-append 4 word (bs ++ rest) (sym four) in
    let n : length b.back ≡ 4 + (length bs + length rest) =
      ap (λ (l : Bytes). length l) h
      ∙ omega (arith, length-append word (bs ++ rest), length-append bs rest) in
    rw (v, d, take-append (length bs) bs rest refl, drop-append (length bs) bs rest refl)
      (ground (arith, n))

pub memory_buffers : BufferLaws memory_nuraft
memory_buffers = record {
  written = λ b. b.front;
  unread = λ b. b.back;
  pos_written = λ b. refl;
  alloc_fresh = λ n h. (record { front = []; back = []; size = n }, ground arith, refl, refl);
  put_int_room = λ b i h. (
    record b { front = b.front ++ le_bytes 4 i },
    put_front_room b (le_bytes 4 i) (omega (arith, length-le_bytes 4 i)),
    refl,
    refl,
  );
  put_bytes_room = λ b bs h. (
    record b { front = b.front ++ (le_bytes 4 (length bs) ++ bs) },
    put_front_room b (le_bytes 4 (length bs) ++ bs) (omega (arith, length-prefixed bs)),
    refl,
    refl,
  );
  put_bytes_full =
      λ b bs h. put_front_full b (le_bytes 4 (length bs) ++ bs) (omega (arith, length-prefixed bs));
  expand_room = λ b n lo hi. (record b { size = n }, ground arith, refl, refl);
  rewound = λ b. (b.back, refl);
  get_int_front =
      λ b i rest h fits. (record b { back = rest }, get_front_lem b i rest h fits, refl);
  get_bytes_front =
      λ b bs rest h fits. (record b { back = rest }, get_string_lem b bs rest h fits, refl);
}

pub written-memory_buffers : (b : Block) → memory_buffers.written b ≡ b.front
unfolding memory_buffers
written-memory_buffers b = refl
