-- ===== src/Buffer/Append.antt =====
-- `append`: bytes go behind what the buffer holds.
use lucky.Base.{
  ℕ, ◌+◌, ◌-◌, ◌≤◌, ◌≡◌, sym, ◌∙◌, ap, List, ◌++◌, ok, arith, length, slice, take, overwrite,
  length-overwrite, slice-overwrite_end, length-take, add_size_lem,
}
use lucky.Buffer.{Buffer, max_size, begin_write, append}
use lucky.Buffer.Content.{IsValid, content}
use lucky.Buffer.Space.{read_at_lem, write_at_lem, ensure_writable_bytes_lem}

-- The buffer with `bytes` written behind its content.
abbrev pub stored : Buffer → List ℕ → Buffer
stored b bytes = record b {
  buffer = overwrite b.buffer b.writer_index bytes;
  writer_index = b.writer_index + length bytes;
}

pub stored_lem :
    {b : Buffer} (bytes : List ℕ)
    → IsValid b
    → b.writer_index + length bytes ≤ length b.buffer
    → IsValid (stored b bytes) × (content (stored b bytes) ≡ content b ++ bytes)
stored_lem {b} bytes v room = (
  record {
    reserved = v.reserved;
    ordered = omega arith;
    inside = omega (arith, size);
    legal = omega (arith, size);
  },
  ap (λ p. slice b.reader_index k (overwrite b.buffer p bytes)) (sym at_end)
      ∙ slice-overwrite_end b.reader_index n k b.buffer bytes (omega arith) (omega arith),
)
  where
    n : ℕ
    n = b.writer_index - b.reader_index

    k : ℕ
    k = b.writer_index + length bytes - b.reader_index

    at_end : b.reader_index + n ≡ b.writer_index
    at_end = omega arith

    size : length (overwrite b.buffer b.writer_index bytes) ≡ length b.buffer
    size = length-overwrite b.buffer b.writer_index bytes room

-- `append` never faults, and stores exactly the first `len` bytes behind what the buffer holds.
pub append_lem :
    {b : Buffer} (from : List ℕ) (len : ℕ)
    → IsValid b
    → b.writer_index + len ≤ max_size
    → len ≤ length from
    → (b' : Buffer) × (append b from len ≡ ok b')
      × IsValid b'
      × (content b' ≡ content b ++ take len from)
      × (b'.writer_index ≤ b.writer_index + len)
unfolding append begin_write
append_lem from len v legal enough =
    let (b', e, v', same, room, no_later) = ensure_writable_bytes_lem len v legal in
    let taken : length (take len from) ≡ len = omega (arith, length-take len from) in
    let (v'', holds) = stored_lem (take len from) v' (omega arith) in
    (
      stored b' (take len from),
      rw (
        e,
        read_at_lem from 0 len (omega arith),
        write_at_lem b'.buffer b'.writer_index (take len from) (omega arith),
        add_size_lem b'.writer_index len (omega arith),
        taken,
      ),
      v'',
      holds ∙ ap (λ l. l ++ take len from) same,
      omega arith,
    )
