-- ===== src/Buffer/Content.antt =====
-- What a buffer holds, and the invariant of its indices.
use lucky.Base.{
  ℕ, ◌+◌, ◌-◌, ◌≤◌, ◌≡◌, refl, List, [], ok, arith, length, slice, replicate, length-replicate,
  length-slice, le→leb, add_size_lem, sub_size_lem,
}
use lucky.Buffer.{
  Buffer, cheap_prepend, max_size, init, readable_bytes, writable_bytes, prependable_bytes,
}

-- The indices are in order behind the reserved bytes, and the vector has a legal size.
pub record IsValid (b : Buffer) : Type 0 where
  pub reserved : cheap_prepend ≤ b.reader_index
  pub ordered : b.reader_index ≤ b.writer_index
  pub inside : b.writer_index ≤ length b.buffer
  pub legal : length b.buffer ≤ max_size

-- The readable bytes, oldest first.
abbrev pub content : Buffer → List ℕ
content b = slice b.reader_index (b.writer_index - b.reader_index) b.buffer

pub length-content : {b : Buffer} → IsValid b → length (content b) ≡ b.writer_index - b.reader_index
length-content {b} v =
    length-slice b.reader_index (b.writer_index - b.reader_index) b.buffer (omega arith)

-- None of the three subtractions wraps.
pub readable_bytes_lem :
    {b : Buffer} → IsValid b → readable_bytes b ≡ b.writer_index - b.reader_index
unfolding readable_bytes
readable_bytes_lem {b} v = sub_size_lem b.writer_index b.reader_index (omega arith) (omega arith)

pub writable_bytes_lem :
    {b : Buffer} → IsValid b → writable_bytes b ≡ length b.buffer - b.writer_index
unfolding writable_bytes
writable_bytes_lem {b} v = sub_size_lem (length b.buffer) b.writer_index (omega arith) (omega arith)

pub readable_bytes-content : {b : Buffer} → IsValid b → readable_bytes b ≡ length (content b)
readable_bytes-content v = omega (arith, readable_bytes_lem v, length-content v)

-- For a valid buffer the prependable, the readable and the writable bytes make up the vector.
pub regions :
    {b : Buffer}
    → IsValid b
    → prependable_bytes b + readable_bytes b + writable_bytes b ≡ length b.buffer
unfolding prependable_bytes
regions v = omega (arith, readable_bytes_lem v, writable_bytes_lem v)

-- A vector of `n` zeros with nothing to read.
abbrev pub fresh : ℕ → Buffer
fresh n = record {
  buffer = replicate n 0;
  reader_index = cheap_prepend;
  writer_index = cheap_prepend;
}

pub fresh-IsValid : (n : ℕ) → cheap_prepend ≤ n → n ≤ max_size → IsValid (fresh n)
fresh-IsValid n h k = record {
  reserved = omega arith;
  ordered = omega arith;
  inside = omega (arith, length-replicate n zero_byte);
  legal = omega (arith, length-replicate n zero_byte);
}
  where
    zero_byte : ℕ
    zero_byte = 0

pub init-fresh : (n : ℕ) → cheap_prepend + n ≤ max_size → init n ≡ ok (fresh (cheap_prepend + n))
unfolding init
init-fresh n h = rw (add_size_lem cheap_prepend n (omega arith), le→leb _ _ h)

-- A new buffer is valid and empty, and has room for as many bytes as were asked for.
pub init_lem :
    (n : ℕ)
    → cheap_prepend + n ≤ max_size
    → (b : Buffer) × (init n ≡ ok b) × IsValid b × (content b ≡ []) × (writable_bytes b ≡ n)
init_lem n h =
    let v = fresh-IsValid (cheap_prepend + n) (omega arith) h in
    (
      fresh (cheap_prepend + n),
      init-fresh n h,
      v,
      refl,
      omega (arith, writable_bytes_lem v, length-replicate (cheap_prepend + n) zero_byte),
    )
  where
    zero_byte : ℕ
    zero_byte = 0
