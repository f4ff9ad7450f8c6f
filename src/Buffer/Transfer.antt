-- ===== src/Buffer/Transfer.antt =====
-- `readFd` and `writeFd`: what goes between a socket and the buffer.
use mathlib.Core.List.{append_assoc}
use lucky.Base.{
  ℕ, ◌+◌, ◌-◌, ◌≤◌, ◌<◌, ◌≡◌, refl, sym, ◌∙◌, ap, List, [], ◌∷◌, ◌++◌, Option, none, some, ok,
  arith, length, take, drop, take_all, take-append_le, length-take, length-drop, length-append,
  take-append-drop, length-replicate, overwrite, length-overwrite, lt→leb, le→leb, add_size_lem,
  sub_size_lem, dec_le, ℤ, pos, negsuc, Result,
}
use lucky.Buffer.{
  Buffer, max_size, extra_size, extra_block, writable_bytes, peek, begin_write, Received, received,
  failed, Sent, sent, refused, read_blocks, store_received, read_fd, write_fd,
}
use lucky.Buffer.Content.{IsValid, content, readable_bytes_lem, writable_bytes_lem}
use lucky.Buffer.Space.{read_at_lem, write_at_lem}
use lucky.Buffer.Append.{stored, stored_lem, append_lem}

abbrev pub total : List ℕ → ℕ
total [] = 0
total (n ∷ ns) = n + total ns

total-read_blocks-le : (b : Buffer) → total (read_blocks b) ≤ writable_bytes b + extra_size
unfolding read_blocks
total-read_blocks-le b = ground arith

pub total-read_blocks-ge : (b : Buffer) → extra_size ≤ total (read_blocks b)
unfolding read_blocks
total-read_blocks-ge b = ground arith

length-extra_block : length extra_block ≡ extra_size
unfolding extra_block
length-extra_block = length-replicate {A = ℕ} extra_size 0

take-overwrite_front :
    (mem bytes : List ℕ) (n : ℕ) → n ≡ length bytes → take n (overwrite mem 0 bytes) ≡ bytes
take-overwrite_front mem bytes n e =
    take-append_le n bytes (drop (0 + length bytes) mem) (omega arith)
    ∙ take_all n bytes (omega arith)

-- Where the writable part holds all that came.
store_received_small :
    {b : Buffer} (bytes : List ℕ)
    → IsValid b
    → length bytes ≤ length b.buffer - b.writer_index
    → store_received b bytes ≡ ok (pos (length bytes), none, stored b bytes)
unfolding store_received begin_write
store_received_small {b} bytes v h = rw (
  writable_bytes_lem v,
  take_all (length b.buffer - b.writer_index) bytes h,
  write_at_lem b.buffer b.writer_index bytes (omega arith),
  write_at_lem extra_block 0 (drop (length b.buffer - b.writer_index) bytes)
      (omega (arith, length-extra_block, length-drop (length b.buffer - b.writer_index) bytes)),
  le→leb _ _ h,
  add_size_lem b.writer_index (length bytes) (omega arith),
)

-- Where it does not, and the rest waits in the block on the stack.
store_received_large :
    {b : Buffer} (bytes : List ℕ)
    → IsValid b
    → length b.buffer - b.writer_index < length bytes
    → length bytes ≤ length b.buffer - b.writer_index + extra_size
    → b.writer_index + length bytes ≤ max_size
    → (b' : Buffer) × (store_received b bytes ≡ ok (pos (length bytes), none, b'))
      × IsValid b'
      × (content b' ≡ content b ++ bytes)
      × (b'.writer_index ≤ b.writer_index + length bytes)
unfolding store_received begin_write
store_received_large {b} bytes v more fits legal =
    let room : ℕ = length b.buffer - b.writer_index in
    let front : List ℕ = take room bytes in
    let rest : List ℕ = drop room bytes in
    let front_length : length front ≡ room = omega (arith, length-take room bytes) in
    let rest_length : length rest ≡ length bytes - room = omega (arith, length-drop room bytes) in
    let full : Buffer = stored b front in
    let (full_valid, full_holds) = stored_lem front v (omega arith) in
    let extra : List ℕ = overwrite extra_block 0 rest in
    let (b', e, v', holds, later) =
      append_lem extra (length bytes - room) full_valid (omega arith)
        (omega (arith, length-append rest (drop (0 + length rest) extra_block))) in
    let at_end : length full.buffer ≡ full.writer_index =
      omega (arith, length-overwrite b.buffer b.writer_index front (omega arith)) in
    (
      b',
      rw (
        writable_bytes_lem v,
        write_at_lem b.buffer b.writer_index front (omega arith),
        write_at_lem extra_block 0 rest (omega (arith, length-extra_block)),
        lt→leb _ _ more,
        at_end,
        sub_size_lem (length bytes) room (omega arith) (omega arith),
        e,
      ),
      v',
      holds
          ∙ ap (λ l. content full ++ l)
              (take-overwrite_front extra_block rest (length bytes - room) (sym rest_length))
          ∙ ap (λ l. l ++ rest) full_holds
          ∙ append_assoc (content b) front rest
          ∙ ap (λ l. content b ++ l) (take-append-drop room bytes),
      omega (arith, later, front_length),
    )

-- What `readv` promises: it stores no more than the blocks hold, and here no more than a vector can
-- take in.
abbrev pub Fits : Buffer → Received → Type 0
Fits b (received bytes) =
    (length bytes ≤ total (read_blocks b)) × (b.writer_index + length bytes ≤ max_size)
Fits b (failed e) = Unit {0}

-- What `readFd` has to make of it.
abbrev pub ReadOutcome : Buffer → Received → Result (ℤ × Option ℕ × Buffer) → Type 0
ReadOutcome b (received bytes) out =
    (b' : Buffer) × (out ≡ ok (pos (length bytes), none, b'))
    × IsValid b'
    × (content b' ≡ content b ++ bytes)
    × (b'.writer_index ≤ b.writer_index + length bytes)
ReadOutcome b (failed e) out = out ≡ ok (negsuc 0, some e, b)

read_outcome :
    {b : Buffer} (r : Received)
    → IsValid b
    → Fits b r
    → ReadOutcome b r
        (elim r [ received bytes ↦ store_received b bytes | failed e ↦ ok (negsuc 0, some e, b) ])
read_outcome {b} (received bytes) v h =
    elim (dec_le (length bytes) (length b.buffer - b.writer_index)) [
      | yes small ↦
          let (v', holds) = stored_lem bytes v (omega arith) in
          (stored b bytes, store_received_small bytes v small, v', holds, omega arith)
      | no large ↦
          store_received_large bytes v (omega arith)
            (omega (arith, total-read_blocks-le b, writable_bytes_lem v)) h.1
    ]
read_outcome (failed e) v h = refl

-- `readFd` appends exactly the bytes that `readv` delivered, in order, wherever they landed, and
-- returns their number, and moves the write index by no more; on an error it hands out the error
-- code and changes nothing.
pub read_fd_lem :
    {b : Buffer} (readv : List ℕ → Received)
    → IsValid b
    → Fits b (readv (read_blocks b))
    → ReadOutcome b (readv (read_blocks b)) (read_fd readv b)
unfolding read_fd
read_fd_lem {b} readv v h = read_outcome (readv (read_blocks b)) v h

-- The result of `writeFd`, from what `write` did.
abbrev pub write_outcome : Sent → ℤ × Option ℕ
write_outcome (sent n) = (pos n, none)
write_outcome (refused e) = (negsuc 0, some e)

-- `writeFd` offers exactly what the buffer holds, and passes on what `write` answers.
pub write_fd_lem :
    {b : Buffer} (write : List ℕ → Sent)
    → IsValid b
    → write_fd write b ≡ ok (write_outcome (write (content b)))
unfolding write_fd peek
write_fd_lem {b} write v =
    rw
      (
        readable_bytes_lem v,
        read_at_lem b.buffer b.reader_index (b.writer_index - b.reader_index) (omega arith),
      )
      (answer (write (content b)))
  where
    answer :
        (s : Sent)
        → ◌≡◌ {A = Result (ℤ × Option ℕ)}
            (elim s [ sent n ↦ ok (pos n, none) | refused e ↦ ok (negsuc 0, some e) ])
            (ok (write_outcome s))
    answer (sent n) = refl
    answer (refused e) = refl
