-- ===== src/Buffer/Refine.antt =====
-- A buffer behaves as the queue of the bytes that it holds.
use lucky.Base.{
  ℕ, ◌+◌, ◌≤◌, ◌≡◌, refl, ◌∙◌, ap, List, [], ◌∷◌, ◌++◌, ok, Result, ◌>>=◌, arith, length, drop,
  take, take_all, ℤ, pos, negsuc,
}
use lucky.Buffer.{
  Buffer, max_size, extra_size, append, retrieve, retrieve_as_string, retrieve_all_as_string,
  received, failed, read_fd,
}
use lucky.Buffer.Content.{IsValid, content, readable_bytes-content}
use lucky.Buffer.Append.{append_lem}
use lucky.Buffer.Transfer.{read_fd_lem, total-read_blocks-ge}
use lucky.Buffer.Retrieve.{
  retrieve_lem, writer_index-retrieve, retrieve_as_string_lem, retrieve_all_as_string_lem,
}

-- The calls that put bytes into a buffer or take bytes out of it: `append`, `readFd` with what
-- `readv` delivers or its error, `retrieve`, `retrieveAsString` and `retrieveAllAsString`.
pub data Call : Type 0 where
  put : List ℕ → Call
  receive : List ℕ → Call
  fail : ℕ → Call
  discard : ℕ → Call
  get : ℕ → Call
  get_all : Call

-- What a call hands out: a string, or the result of `readFd`.
pub data Answer : Type 0 where
  text : List ℕ → Answer
  count : ℤ → Answer

-- The answers of a row of calls, in order.
pub run : Buffer → List Call → Result (List Answer)
run b [] = ok []
run b (put bytes ∷ cs) = do b' ← append b bytes (length bytes); run b' cs
run b (receive bytes ∷ cs) = do
  (n, errno, b') ← read_fd (λ blocks. received bytes) b
  rest ← run b' cs
  ok (count n ∷ rest)
run b (fail e ∷ cs) = do
  (n, errno, b') ← read_fd (λ blocks. failed e) b
  rest ← run b' cs
  ok (count n ∷ rest)
run b (discard n ∷ cs) = run (retrieve b n) cs
run b (get n ∷ cs) = do (s, b') ← retrieve_as_string b n; rest ← run b' cs; ok (text s ∷ rest)
run b (get_all ∷ cs) = do (s, b') ← retrieve_all_as_string b; rest ← run b' cs; ok (text s ∷ rest)

-- The same calls on a plain queue of bytes.
unfoldable pub queue : List ℕ → List Call → List Answer
queue q [] = []
queue q (put bytes ∷ cs) = queue (q ++ bytes) cs
queue q (receive bytes ∷ cs) = count (pos (length bytes)) ∷ queue (q ++ bytes) cs
queue q (fail e ∷ cs) = count (negsuc 0) ∷ queue q cs
queue q (discard n ∷ cs) = queue (drop n q) cs
queue q (get n ∷ cs) = text (take n q) ∷ queue (drop n q) cs
queue q (get_all ∷ cs) = text q ∷ queue [] cs

unfoldable pub load : List Call → ℕ
load [] = 0
load (put bytes ∷ cs) = length bytes + load cs
load (receive bytes ∷ cs) = length bytes + load cs
load (call ∷ cs) = load cs

-- No string is asked for that is longer than what is there, and no read delivers more than the
-- block on the stack holds.
abbrev pub Allowed : List ℕ → List Call → Type 0
Allowed q [] = Unit {0}
Allowed q (put bytes ∷ cs) = Allowed (q ++ bytes) cs
Allowed q (receive bytes ∷ cs) = (length bytes ≤ extra_size) × Allowed (q ++ bytes) cs
Allowed q (fail e ∷ cs) = Allowed q cs
Allowed q (discard n ∷ cs) = Allowed (drop n q) cs
Allowed q (get n ∷ cs) = (n ≤ length q) × Allowed (drop n q) cs
Allowed q (get_all ∷ cs) = Allowed [] cs

-- No sequence of calls of `append`, `readFd`, `retrieve`, `retrieveAsString` and
-- `retrieveAllAsString` faults, or tells a valid buffer from the plain queue of its content, while
-- no `retrieveAsString` asks for more than is readable, a `readFd` delivers at most 65536 bytes,
-- and the write index with the bytes put in stays within what a vector can hold.
pub run_refines :
    (cs : List Call) {b : Buffer}
    → IsValid b
    → Allowed (content b) cs
    → b.writer_index + load cs ≤ max_size
    → run b cs ≡ ok (queue (content b) cs)
unfolding run queue load
run_refines [] v a h = refl
run_refines (put bytes ∷ cs) {b} v a h =
    let (b', e, v', holds, later) = append_lem bytes (length bytes) v (omega arith) (omega arith) in
    let same = holds ∙ ap (λ l. content b ++ l) (take_all (length bytes) bytes (omega arith)) in
    rw e (run_refines cs v' (rw same a) (omega arith) ∙ ap (λ q. ok (queue q cs)) same)
run_refines (receive bytes ∷ cs) {b} v (few, a) h =
    let (b', e, v', holds, later) =
      read_fd_lem (λ blocks. received bytes) v
        (omega (arith, total-read_blocks-ge b), omega arith) in
    rw (e, run_refines cs v' (rw holds a) (omega arith), holds)
run_refines (fail e ∷ cs) {b} v a h =
    rw (read_fd_lem (λ blocks. failed e) v tt, run_refines cs v a h)
run_refines (discard n ∷ cs) {b} v a h =
    let (v', holds) = retrieve_lem n v in
    run_refines cs v' (rw holds a) (omega (arith, writer_index-retrieve n v))
    ∙ ap (λ q. ok (queue q cs)) holds
run_refines (get n ∷ cs) {b} v (enough, a) h =
    let (v', _) = retrieve_lem n v in
    let (e, left) = retrieve_as_string_lem n v (omega (arith, readable_bytes-content v)) in
    rw (e, run_refines cs v' (rw left a) (omega (arith, writer_index-retrieve n v)), left)
run_refines (get_all ∷ cs) {b} v a h =
    let (b', e, v', holds, front) = retrieve_all_as_string_lem v in
    rw (e, run_refines cs v' (rw holds a) (omega arith), holds)
