-- ===== src/Buffer/Retrieve.antt =====
-- `retrieve`, `retrieveAsString` and `retrieveAllAsString`: taking bytes from the front.
use lucky.Base.{
  ℕ, ◌+◌, ◌-◌, ◌≤◌, ◌<◌, ◌≡◌, refl, sym, ◌∙◌, ap, [], ok, err, undefined, arith, length, slice,
  take, drop, take-take, take_all, drop_all, drop-slice, lt→ltb, le→ltb, lt→leb, add_size_lem,
  dec_lt,
}
use lucky.Buffer.{
  Buffer, cheap_prepend, readable_bytes, peek, retrieve, retrieve_all, read_at, retrieve_as_string,
  retrieve_all_as_string,
}
use lucky.Buffer.Content.{
  IsValid, content, length-content, readable_bytes_lem, readable_bytes-content,
}
use lucky.Buffer.Space.{read_at_lem}

retrieve_all_lem :
    {b : Buffer} → IsValid b → IsValid (retrieve_all b) × (content (retrieve_all b) ≡ [])
unfolding retrieve_all
retrieve_all_lem v = (omega arith, refl)

-- `retrieve` keeps the buffer valid and drops exactly the first `len` readable bytes, all of them
-- where there are no more.
pub retrieve_lem :
    {b : Buffer} (len : ℕ)
    → IsValid b
    → IsValid (retrieve b len) × (content (retrieve b len) ≡ drop len (content b))
unfolding retrieve
retrieve_lem {b} len v = elim (dec_lt len (b.writer_index - b.reader_index)) [
  | yes some_left ↦
      rw (readable_bytes_lem v, lt→ltb _ _ some_left, add_size_lem b.reader_index len (omega arith))
        (
          omega arith,
          ap (λ k. slice (b.reader_index + len) k b.buffer)
                {x = b.writer_index - (b.reader_index + len)}
                {y = b.writer_index - b.reader_index - len} (omega arith)
              ∙ ap (λ i. slice i (b.writer_index - b.reader_index - len) b.buffer)
                  {x = b.reader_index + len} {y = len + b.reader_index} (omega arith)
              ∙ sym (drop-slice len b.reader_index (b.writer_index - b.reader_index) b.buffer),
        )
  | no none_left ↦
      let covers : b.writer_index - b.reader_index ≤ len = omega arith in
      let (v', e) = retrieve_all_lem v in
      rw (readable_bytes_lem v, le→ltb _ _ covers)
        (v', e ∙ sym (drop_all len (content b) (omega (arith, length-content v))))
]

-- The write index never moves up.
pub writer_index-retrieve :
    {b : Buffer} (len : ℕ) → IsValid b → (retrieve b len).writer_index ≤ b.writer_index
unfolding retrieve retrieve_all
writer_index-retrieve len v = ground arith

-- Asked for no more than is readable, `retrieveAsString` returns exactly the oldest `len` bytes,
-- and what is left is the rest.
pub retrieve_as_string_lem :
    {b : Buffer} (len : ℕ)
    → IsValid b
    → len ≤ readable_bytes b
    → (retrieve_as_string b len ≡ ok (take len (content b), retrieve b len))
      × (content (retrieve b len) ≡ drop len (content b))
unfolding retrieve_as_string peek
retrieve_as_string_lem {b} len v h = (
  rw (read_at_lem b.buffer b.reader_index len (omega (arith, readable_bytes_lem v))) (
      ap (λ s. ok (s, retrieve b len))
        (sym (
          take-take len (b.writer_index - b.reader_index) (drop b.reader_index b.buffer)
            (omega (arith, readable_bytes_lem v))))),
  (retrieve_lem len v).1,
)

-- Taking all that is readable puts both indices back to the front.
rewound : {b : Buffer} → IsValid b → (retrieve b (readable_bytes b)).writer_index ≡ cheap_prepend
unfolding retrieve retrieve_all
rewound {b} v = rw (le→ltb (readable_bytes b) (readable_bytes b) (omega arith))

-- `retrieveAllAsString` returns everything that the buffer holds and leaves it empty and valid,
-- with its indices at the front.
pub retrieve_all_as_string_lem :
    {b : Buffer}
    → IsValid b
    → (b' : Buffer) × (retrieve_all_as_string b ≡ ok (content b, b'))
      × IsValid b'
      × (content b' ≡ [])
      × (b'.writer_index ≡ cheap_prepend)
unfolding retrieve_all_as_string
retrieve_all_as_string_lem {b} v =
    let n : ℕ = readable_bytes b in
    let whole : length (content b) ≤ n = omega (arith, readable_bytes-content v) in
    let (e, left) = retrieve_as_string_lem n v (omega arith) in
    (
      retrieve b n,
      e ∙ ap (λ s. ok (s, retrieve b n)) (take_all n (content b) whole),
      (retrieve_lem n v).0,
      left ∙ drop_all n (content b) whole,
      rewound v,
    )

-- Nothing in `retrieveAsString` stops a caller who asks for more than is readable: it hands out
-- whatever the vector holds behind the readable bytes, and reads outside the vector past its end.
pub retrieve_as_string_beyond :
    {b : Buffer} (len : ℕ)
    → IsValid b
    → readable_bytes b < len
    → (b.reader_index + len ≤ length b.buffer
        → retrieve_as_string b len ≡ ok (slice b.reader_index len b.buffer, retrieve_all b))
      × (length b.buffer < b.reader_index + len → retrieve_as_string b len ≡ err undefined)
unfolding retrieve_as_string peek retrieve
retrieve_as_string_beyond {b} len v h = (
  λ k.
      let covers : readable_bytes b ≤ len = omega arith in
      rw (read_at_lem b.buffer b.reader_index len k, le→ltb _ _ covers),
  λ k. unfold read_at in rw (lt→leb _ _ k),
)
