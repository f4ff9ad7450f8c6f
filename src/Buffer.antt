-- ===== src/Buffer.antt =====
-- include/Buffer.h and src/Buffer.cpp: one `std::vector<char>` with a read and a write index.
-- A byte is a number, a pointer into the vector is its offset, and an access outside the vector
-- is the fault `undefined`. The system calls are arguments: `readv` gets the lengths of its
-- blocks, `write` the bytes that it may send.
pub mod Content
pub mod Space
pub mod Append
pub mod Retrieve
pub mod Transfer
pub mod Refine
mod Examples
use lucky.Base.{
  ℕ, ◌+◌, ◌-◌, ◌^◌, Bool, true, false, List, [], ◌∷◌, ◌++◌, Option, none, some, ltb, leb,
  if◌then◌else◌, ◌&&◌, length, take, drop, replicate, overwrite, slice, Result, ok, err, Fault,
  undefined, length_error, ◌>>=◌, ℤ, pos, negsuc, add_size, sub_size,
}

abbrev pub cheap_prepend : ℕ
cheap_prepend = 8

abbrev pub initial_size : ℕ
initial_size = 1024

-- `sizeof(extrabuff)`
abbrev pub extra_size : ℕ
extra_size = 65536

-- `std::vector<char>::max_size()`
abbrev pub max_size : ℕ
max_size = 2 ^ 63 - 1

pub record Buffer : Type 0 where
  pub buffer : List ℕ
  pub reader_index : ℕ
  pub writer_index : ℕ

-- The vector's constructor throws above its largest size.
unfoldable pub init : ℕ → Result Buffer
init initial =
    let size = add_size cheap_prepend initial in
    if leb size max_size
    then ok (record {
      buffer = replicate size 0;
      reader_index = cheap_prepend;
      writer_index = cheap_prepend;
    })
    else err length_error

unfoldable pub readable_bytes : Buffer → ℕ
readable_bytes b = sub_size b.writer_index b.reader_index

unfoldable pub writable_bytes : Buffer → ℕ
writable_bytes b = sub_size (length b.buffer) b.writer_index

unfoldable pub prependable_bytes : Buffer → ℕ
prependable_bytes b = b.reader_index

unfoldable pub peek : Buffer → ℕ
peek b = b.reader_index

unfoldable pub begin_write : Buffer → ℕ
begin_write b = b.writer_index

unfoldable pub retrieve_all : Buffer → Buffer
retrieve_all b = record b { reader_index = cheap_prepend; writer_index = cheap_prepend }

unfoldable pub retrieve : Buffer → ℕ → Buffer
retrieve b len =
    if ltb len (readable_bytes b)
    then record b { reader_index = add_size b.reader_index len }
    else retrieve_all b

-- `n` elements of memory from offset `i` on.
unfoldable pub read_at : List ℕ → ℕ → ℕ → Result (List ℕ)
read_at mem i n = if leb (i + n) (length mem) then ok (slice i n mem) else err undefined

unfoldable pub write_at : List ℕ → ℕ → List ℕ → Result (List ℕ)
write_at mem i bytes =
    if leb (i + length bytes) (length mem) then ok (overwrite mem i bytes) else err undefined

-- `std::copy(begin() + first, begin() + last, begin() + dest)`; the destination must not lie
-- inside the range that is read.
unfoldable pub copy_within : List ℕ → ℕ → ℕ → ℕ → Result (List ℕ)
copy_within mem first last dest =
    if ltb last first
    then err undefined
    else if leb first dest && ltb dest last
    then err undefined
    else (do bytes ← read_at mem first (last - first); write_at mem dest bytes)

-- `buffer_.resize(n)`; new elements are zero.
unfoldable pub resize : List ℕ → ℕ → Result (List ℕ)
resize mem n =
    if ltb max_size n
    then err length_error
    else ok (if leb n (length mem) then take n mem else mem ++ replicate (n - length mem) 0)

unfoldable pub retrieve_as_string : Buffer → ℕ → Result (List ℕ × Buffer)
retrieve_as_string b len = do result ← read_at b.buffer (peek b) len; ok (result, retrieve b len)

unfoldable pub retrieve_all_as_string : Buffer → Result (List ℕ × Buffer)
retrieve_all_as_string b = retrieve_as_string b (readable_bytes b)

unfoldable pub make_space : Buffer → ℕ → Result Buffer
make_space b len =
    if ltb (add_size (writable_bytes b) (prependable_bytes b)) (add_size len cheap_prepend)
    then (do
      grown ← resize b.buffer (add_size b.writer_index len)
      ok (record b { buffer = grown }))
    else (do
      moved ← copy_within b.buffer b.reader_index b.writer_index cheap_prepend
      ok (record b {
        buffer = moved;
        reader_index = cheap_prepend;
        writer_index = add_size cheap_prepend (readable_bytes b);
      }))

unfoldable pub ensure_writable_bytes : Buffer → ℕ → Result Buffer
ensure_writable_bytes b len = if ltb (writable_bytes b) len then make_space b len else ok b

-- `from` is the memory that the pointer argument points to.
unfoldable pub append : Buffer → List ℕ → ℕ → Result Buffer
append b from len = do
  roomy ← ensure_writable_bytes b len
  bytes ← read_at from 0 len
  written ← write_at roomy.buffer (begin_write roomy) bytes
  ok (record roomy { buffer = written; writer_index = add_size roomy.writer_index len })

-- What `readv` did: the bytes that it stored, block after block, or the error code.
pub data Received : Type 0 where
  received : List ℕ → Received
  failed : ℕ → Received

-- The `iov_len` of the blocks that `readv` is given.
unfoldable pub read_blocks : Buffer → List ℕ
read_blocks b =
    let writable = writable_bytes b in
    if ltb writable extra_size then writable ∷ extra_size ∷ [] else writable ∷ []

-- `char extrabuff[65536] = {0}`
unfoldable pub extra_block : List ℕ
extra_block = replicate extra_size 0

-- `readv` has filled the writable part first, and then the block on the stack.
unfoldable pub store_received : Buffer → List ℕ → Result (ℤ × Option ℕ × Buffer)
store_received b bytes = do
  let writable = writable_bytes b
  let n = length bytes
  filled ← write_at b.buffer (begin_write b) (take writable bytes)
  extra ← write_at extra_block 0 (drop writable bytes)
  let b' = record b { buffer = filled }
  if leb n writable
      then ok (pos n, none, record b' { writer_index = add_size b'.writer_index n })
      else (do
        grown ← append (record b' { writer_index = length filled }) extra (sub_size n writable)
        ok (pos n, none, grown))

-- The result, what went through `saveErrno`, and the buffer.
unfoldable pub read_fd : (List ℕ → Received) → Buffer → Result (ℤ × Option ℕ × Buffer)
read_fd readv b = elim (readv (read_blocks b)) [
  | received bytes ↦ store_received b bytes
  | failed e ↦ ok (negsuc 0, some e, b)
]

-- What `write` did: how many bytes it took, or the error code.
pub data Sent : Type 0 where
  sent : ℕ → Sent
  refused : ℕ → Sent

-- The result, and what went through `saveErrno`. The buffer is only read.
unfoldable pub write_fd : (List ℕ → Sent) → Buffer → Result (ℤ × Option ℕ)
write_fd write b = do
  bytes ← read_at b.buffer (peek b) (readable_bytes b)
  elim (write bytes) [ sent n ↦ ok (pos n, none) | refused e ↦ ok (negsuc 0, some e) ]

-- What a test that runs the code looks through.
unfoldable pub buffer_code : Unit {0}
unfolding init readable_bytes writable_bytes prependable_bytes peek begin_write retrieve_all
    retrieve read_at write_at copy_within resize retrieve_as_string retrieve_all_as_string
    make_space ensure_writable_bytes append read_blocks extra_block store_received read_fd write_fd
    add_size sub_size
buffer_code = tt
