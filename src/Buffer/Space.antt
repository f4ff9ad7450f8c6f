-- ===== src/Buffer/Space.antt =====
-- `makeSpace` and `ensureWritableBytes`: room is made without losing a byte.
use lucky.Base.{
  ℕ, ◌+◌, ◌-◌, ◌≤◌, ◌<◌, ◌≡◌, refl, List, ◌++◌, ok, arith, length, slice, replicate, overwrite,
  length-replicate, length-append, length-slice, length-overwrite, slice-append,
  slice-overwrite_self, le→leb, lt→leb, lt→ltb, le→ltb, add_size, add_size_lem, dec_lt,
}
use lucky.Buffer.{
  Buffer, cheap_prepend, max_size, writable_bytes, prependable_bytes, read_at, write_at,
  copy_within, resize, make_space, ensure_writable_bytes,
}
use lucky.Buffer.Content.{IsValid, content, length-content, readable_bytes_lem, writable_bytes_lem}

pub read_at_lem :
    (mem : List ℕ) (i n : ℕ) → i + n ≤ length mem → read_at mem i n ≡ ok (slice i n mem)
unfolding read_at
read_at_lem mem i n h = rw (le→leb _ _ h)

pub write_at_lem :
    (mem : List ℕ) (i : ℕ) (bytes : List ℕ)
    → i + length bytes ≤ length mem
    → write_at mem i bytes ≡ ok (overwrite mem i bytes)
unfolding write_at
write_at_lem mem i bytes h = rw (le→leb _ _ h)

resize_grow :
    (mem : List ℕ) (n : ℕ)
    → length mem < n
    → n ≤ max_size
    → resize mem n ≡ ok (mem ++ replicate (n - length mem) 0)
unfolding resize
resize_grow mem n h k = rw (le→ltb _ _ k, lt→leb _ _ h)

copy_within_down :
    (mem : List ℕ) (first last dest : ℕ)
    → dest < first
    → first ≤ last
    → last ≤ length mem
    → copy_within mem first last dest ≡ ok (overwrite mem dest (slice first (last - first) mem))
unfolding copy_within
copy_within_down mem first last dest h k l =
    rw (le→ltb _ _ k, lt→leb _ _ h, read_at_lem mem first (last - first) (omega arith))
      (write_at_lem mem dest (slice first (last - first) mem)
        (omega (arith, length-slice first (last - first) mem)))

-- What a call that makes room for `len` bytes in `b` leaves behind.
pub record HasSpace (b : Buffer) (len : ℕ) (b' : Buffer) : Type 0 where
  pub valid : IsValid b'
  pub same : content b' ≡ content b
  pub room : b'.writer_index + len ≤ length b'.buffer
  pub no_later : b'.writer_index ≤ b.writer_index
  pub compact :
      len + cheap_prepend ≤ length b.buffer - b.writer_index + b.reader_index
      → length b'.buffer ≡ length b.buffer
  pub minimal :
      length b.buffer - b.writer_index + b.reader_index < len + cheap_prepend
      → length b'.buffer ≡ b.writer_index + len

module _ {b : Buffer} (len : ℕ) (v : IsValid b) (legal : b.writer_index + len ≤ max_size) where
  free_sum :
      add_size (writable_bytes b) (prependable_bytes b)
      ≡ length b.buffer - b.writer_index + b.reader_index
  unfolding prependable_bytes
  free_sum =
      rw (writable_bytes_lem v)
        (add_size_lem (length b.buffer - b.writer_index) b.reader_index (omega arith))

  want_sum : add_size len cheap_prepend ≡ len + cheap_prepend
  want_sum = add_size_lem len cheap_prepend (omega arith)

  make_space_grow :
      length b.buffer - b.writer_index < len
      → length b.buffer - b.writer_index + b.reader_index < len + cheap_prepend
      → (b' : Buffer) × (make_space b len ≡ ok b') × HasSpace b len b'
  unfolding make_space
  make_space_grow short scarce = (
    record b { buffer = grown },
    rw (
      free_sum,
      want_sum,
      lt→ltb _ _ scarce,
      add_size_lem b.writer_index len (omega arith),
      resize_grow b.buffer (b.writer_index + len) (omega arith) legal,
    ),
    record {
      valid = record {
        reserved = v.reserved;
        ordered = v.ordered;
        inside = omega (arith, grown_length);
        legal = omega (arith, grown_length);
      };
      same = slice-append b.reader_index (b.writer_index - b.reader_index) b.buffer _ (omega arith);
      room = omega (arith, grown_length);
      no_later = omega arith;
      compact = λ h. absurd (omega arith);
      minimal = λ h. grown_length;
    },
  )
    where
      grown : List ℕ
      grown = b.buffer ++ replicate (b.writer_index + len - length b.buffer) 0

      grown_length : length grown ≡ b.writer_index + len
      grown_length = omega (
        arith,
        length-append b.buffer (replicate (b.writer_index + len - length b.buffer) 0),
        length-replicate {0} {A = ℕ} (b.writer_index + len - length b.buffer) 0,
      )

  make_space_compact :
      length b.buffer - b.writer_index < len
      → len + cheap_prepend ≤ length b.buffer - b.writer_index + b.reader_index
      → (b' : Buffer) × (make_space b len ≡ ok b') × HasSpace b len b'
  unfolding make_space
  make_space_compact short ample = (
    record b {
      buffer = moved;
      reader_index = cheap_prepend;
      writer_index = cheap_prepend + (b.writer_index - b.reader_index);
    },
    rw (
      free_sum,
      want_sum,
      le→ltb _ _ ample,
      readable_bytes_lem v,
      copy_within_down b.buffer b.reader_index b.writer_index cheap_prepend (omega arith) v.ordered
          v.inside,
      add_size_lem cheap_prepend (b.writer_index - b.reader_index) (omega arith),
    ),
    record {
      valid = record {
        reserved = omega arith;
        ordered = omega arith;
        inside = omega (arith, moved_length, length-content v);
        legal = omega (arith, moved_length);
      };
      same =
          slice-overwrite_self cheap_prepend _ b.buffer (content b)
            (omega (arith, length-content v)) (omega arith);
      room = omega (arith, moved_length, length-content v);
      no_later = omega arith;
      compact = λ h. moved_length;
      minimal = λ h. absurd (omega arith);
    },
  )
    where
      moved : List ℕ
      moved = overwrite b.buffer cheap_prepend (content b)

      moved_length : length moved ≡ length b.buffer
      moved_length =
          length-overwrite b.buffer cheap_prepend (content b) (omega (arith, length-content v))

  -- Short of room behind the content, `makeSpace` never faults and keeps the content: it keeps the
  -- vector's size where the read bytes make up for it, and grows it to the exact need otherwise.
  make_space_lem :
      length b.buffer - b.writer_index < len
      → (b' : Buffer) × (make_space b len ≡ ok b') × HasSpace b len b'
  make_space_lem short =
      elim (dec_lt (length b.buffer - b.writer_index + b.reader_index) (len + cheap_prepend)) [
        | yes scarce ↦ make_space_grow short scarce
        | no ample ↦ make_space_compact short (omega arith)
      ]

  -- `ensureWritableBytes` never faults: it moves no byte where there is room, shifts the content to
  -- the front where that frees enough, and grows the vector to the exact size otherwise.
  pub ensure_writable_bytes_lem :
      (b' : Buffer) × (ensure_writable_bytes b len ≡ ok b')
      × IsValid b'
      × (content b' ≡ content b)
      × (b'.writer_index + len ≤ length b'.buffer)
      × (b'.writer_index ≤ b.writer_index)
  unfolding ensure_writable_bytes
  ensure_writable_bytes_lem = elim (dec_lt (length b.buffer - b.writer_index) len) [
    | yes short ↦
        let (b', e, s) = make_space_lem short in
        (b', rw (writable_bytes_lem v, lt→ltb _ _ short) e, s.valid, s.same, s.room, s.no_later)
    | no roomy ↦
        let fits : len ≤ length b.buffer - b.writer_index = omega arith in
        (b, rw (writable_bytes_lem v, le→ltb _ _ fits), v, refl, omega arith, omega arith)
  ]
