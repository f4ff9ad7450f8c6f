-- ===== src/Connection/Rest.antt =====
-- The end of `sendinLoop`: what is left of the data goes to the output, with the high water mark.
use mathlib.Core.List.{append_assoc}
use lucky.Base.{
  ℕ, ◌+◌, ◌≤◌, ◌<◌, ◌≡◌, refl, sym, ◌∙◌, ap, List, ◌++◌, false, not, ◌&&◌, ◌==◌, ==_ne, ltb, leb,
  arith, length, take, length-take, length-append, subst, add_size, ok, Bool-cases, inl, inr,
  Option, none, some,
}
use lucky.Buffer
use lucky.Buffer.{Buffer, max_size, Sent, sent, refused}
use lucky.Buffer.Content.{content, readable_bytes-content}
use lucky.Buffer.Append.{append_lem}
use lucky.Filed
use lucky.Filed.Steady.{Steady-refl}
use lucky.Filed.Masks.{enable_writing, wish, mask_tests}
use lucky.Epoller.{Control}
use lucky.Epoller.Consistency.{Documented}
use lucky.Connection.{
  Context, filed_of, set_output, queue, high_water_mark_task, Attempt, warn_high_water, at_offset,
  store_rest, keep_rest,
}
use lucky.Connection.Stream.{
  Sound, stream, SameConn, SameConn-refl, SameConn-Sound, SameConn-stream, queue-SameConn,
  change_filed_lem, Kept, Kept-trans, SameConn-Kept,
}

warn_high_water-SameConn :
    (tid old_len remaining : ℕ) (c : Context) → SameConn c (warn_high_water tid old_len remaining c)
unfolding warn_high_water
warn_high_water-SameConn tid old_len remaining c =
    elim (Bool-cases (
      leb c.conn.high_water_mark (add_size old_len remaining)
      && ltb old_len c.conn.high_water_mark)) [
        | inl high ↦ rw high (by_callback c.conn.high_water_mark_callback)
        | inr low ↦ rw low (SameConn-refl c)
      ]
  where
    by_callback :
        (cb : Option ℕ)
        → SameConn c (elim cb [
          | none ↦ c
          | some cb ↦ queue tid (high_water_mark_task cb c.conn.id (add_size old_len remaining)) c
        ])
    by_callback none = SameConn-refl c
    by_callback (some cb) =
        queue-SameConn tid (high_water_mark_task cb c.conn.id (add_size old_len remaining)) c

-- What a send leaves behind: the invariant, and the stream with `bytes` at its end.
pub record Extends (bytes : List ℕ) (c c' : Context) : Type 0 where
  pub sound : Sound c'
  pub extended : stream c' ≡ stream c ++ bytes
  pub same_state : c'.conn.state ≡ c.conn.state
  pub kept : Kept c c'
  pub room : c'.conn.output_buffer.writer_index ≤ c.conn.output_buffer.writer_index + length bytes

module _ (control : Control) (doc : Documented control) (tid : ℕ) where
  -- What is left of the data goes behind what waits in the output, and write events are wanted.
  store_rest_lem :
      (source : List ℕ) (remaining : ℕ) (c : Context)
      → Sound c
      → 0 < remaining
      → remaining ≤ length source
      → c.conn.output_buffer.writer_index + remaining ≤ max_size
      → (c' : Context) × (store_rest control source remaining c ≡ ok c')
        × Extends (take remaining source) c c'
  unfolding store_rest
  store_rest_lem source remaining c s more enough legal =
      let b : Buffer = c.conn.output_buffer in
      let (b', appended, v', holds, behind) = append_lem source remaining s.output legal enough in
      let reach : b'.writer_index ≤ b.writer_index + length (take remaining source) =
        omega (arith, length-take remaining source) in
      let extended : c.wire ++ content b' ≡ stream c ++ take remaining source =
        ap (λ l. c.wire ++ l) holds
        ∙ sym (append_assoc c.wire (content b) (take remaining source)) in
      let waiting : (Buffer.readable_bytes b' == 0) ≡ false = ==_ne (Buffer.readable_bytes b') 0 (
        omega (
          arith,
          readable_bytes-content v',
          ap length holds,
          length-append (content b) (take remaining source),
          length-take remaining source,
        )) in
      elim (Bool-cases (Filed.is_writing (filed_of c))) [
        | inl writing ↦ (
          set_output b' c,
          rw (appended, writing),
          record {
            sound = record {
              in_step = s.in_step;
              interest = s.interest;
              asks = s.asks;
              output = v';
              wanted =
                  sym (mask_tests s.interest (filed_of c) s.asks).1
                  ∙ writing
                  ∙ ap not (sym waiting);
            };
            extended = extended;
            same_state = refl;
            kept = record { steady = Steady-refl (filed_of c); thread = refl; conn = refl };
            room = reach;
          },
        )
        | inr idle ↦
            let (e, done, s', asks', steady) =
              change_filed_lem control doc enable_writing (set_output b' c) s.interest s.in_step
                s.asks in
            (
              record (set_output b' c) { eventloop = record (c.eventloop) { epoller = e } },
              rw (appended, idle) done,
              record {
                sound = record {
                  in_step = s';
                  interest = wish enable_writing s.interest;
                  asks = asks';
                  output = v';
                  wanted = ap not (sym waiting);
                };
                extended = extended;
                same_state = refl;
                kept = record { steady = steady; thread = refl; conn = refl };
                room = reach;
              },
            )
      ]

  Extends-SameConn :
      {bytes : List ℕ} {c c₁ c' : Context}
      → SameConn c c₁
      → Extends bytes c₁ c'
      → Extends bytes c c'
  Extends-SameConn {bytes} same x = record {
    sound = x.sound;
    extended = x.extended ∙ ap (λ l. l ++ bytes) (SameConn-stream same);
    same_state = x.same_state ∙ ap (λ conn. conn.state) same.conn;
    kept = Kept-trans (SameConn-Kept same) x.kept;
    room = omega (arith, x.room, ap (λ conn. conn.output_buffer.writer_index) same.conn);
  }

  pub keep_rest_lem :
      (from source : List ℕ) (a : Attempt) (c : Context)
      → at_offset from a.nwrote ≡ ok source
      → Sound c
      → 0 < a.remaining
      → a.remaining ≤ length source
      → c.conn.output_buffer.writer_index + a.remaining ≤ max_size
      → (c' : Context) × (keep_rest control tid from a c ≡ ok c')
        × Extends (take a.remaining source) c c'
  unfolding keep_rest
  keep_rest_lem from source a c located s more enough legal =
      let c₁ : Context =
        warn_high_water tid (Buffer.readable_bytes c.conn.output_buffer) a.remaining c in
      let same =
        warn_high_water-SameConn tid (Buffer.readable_bytes c.conn.output_buffer) a.remaining c in
      let (c', done, x) = store_rest_lem source a.remaining c₁ (SameConn-Sound same s) more enough (
        subst (λ conn. conn.output_buffer.writer_index + a.remaining ≤ max_size) (sym same.conn)
          legal) in
      (c', rw located done, Extends-SameConn same x)
