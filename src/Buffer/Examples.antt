-- ===== src/Buffer/Examples.antt =====
-- Runs of the buffer's code, and its theorems at concrete inputs.
use lucky.Base.{List, pos, negsuc, ◌≤◌, ◌≡◌, refl, [], ◌∷◌, ok, err, undefined, arith}
use lucky.Buffer.{Buffer, buffer_code, append, retrieve_as_string, read_fd, received}
use lucky.Buffer.Content.{IsValid, content}
use lucky.Buffer.Append.{append_lem}
use lucky.Buffer.Transfer.{ReadOutcome, read_fd_lem}
use lucky.Buffer.Refine.{
  Call, put, receive, fail, discard, get, get_all, text, count, run, queue, load, run_refines,
}

-- Two bytes read, "5 6" readable, three free.
abbrev half_read : Buffer
half_read = record {
  buffer = 0 ∷ 0 ∷ 0 ∷ 0 ∷ 0 ∷ 0 ∷ 0 ∷ 0 ∷ 3 ∷ 4 ∷ 5 ∷ 6 ∷ 0 ∷ 0 ∷ 0 ∷ [];
  reader_index = 10;
  writer_index = 12;
}

half_read-IsValid : IsValid half_read
half_read-IsValid = omega arith

-- Four bytes do not fit behind the content, and do once it has moved to the front.
append_moves :
    append half_read (7 ∷ 8 ∷ 9 ∷ 10 ∷ []) 4
    ≡ ok (record {
      buffer = 0 ∷ 0 ∷ 0 ∷ 0 ∷ 0 ∷ 0 ∷ 0 ∷ 0 ∷ 5 ∷ 6 ∷ 7 ∷ 8 ∷ 9 ∷ 10 ∷ 0 ∷ [];
      reader_index = 8;
      writer_index = 14;
    })
unfolding buffer_code
append_moves = refl

-- A string of more than the readable bytes holds bytes that nobody wrote.
overlong_string :
    retrieve_as_string half_read 4
    ≡ ok (5 ∷ 6 ∷ 0 ∷ 0 ∷ [], record half_read { reader_index = 8; writer_index = 8 })
unfolding buffer_code
overlong_string = refl

overrun : retrieve_as_string half_read 6 ≡ err undefined
unfolding buffer_code
overrun = refl

append_lem_example :
    (b' : Buffer) × (append half_read (7 ∷ 8 ∷ 9 ∷ []) 2 ≡ ok b')
    × IsValid b'
    × (content b' ≡ 5 ∷ 6 ∷ 7 ∷ 8 ∷ [])
    × (b'.writer_index ≤ 14)
append_lem_example = append_lem (7 ∷ 8 ∷ 9 ∷ []) 2 half_read-IsValid (omega arith) (omega arith)

read_fd_lem_example :
    ReadOutcome half_read
      (received (1 ∷ 2 ∷ 3 ∷ 4 ∷ []))
      (read_fd (λ _. received (1 ∷ 2 ∷ 3 ∷ 4 ∷ [])) half_read)
unfolding buffer_code
read_fd_lem_example =
    read_fd_lem (λ _. received (1 ∷ 2 ∷ 3 ∷ 4 ∷ [])) half_read-IsValid (omega arith)

abbrev calls : List Call
calls = put (7 ∷ 8 ∷ []) ∷ discard 3 ∷ receive (1 ∷ 2 ∷ 3 ∷ []) ∷ get 2 ∷ fail 11 ∷ get_all ∷ []

run_refines_example :
    run half_read calls
    ≡ ok (count (pos 3) ∷ text (8 ∷ 1 ∷ []) ∷ count (negsuc 0) ∷ text (2 ∷ 3 ∷ []) ∷ [])
unfolding queue load
run_refines_example =
    run_refines calls half_read-IsValid (omega arith, (omega arith, tt)) (omega arith)
