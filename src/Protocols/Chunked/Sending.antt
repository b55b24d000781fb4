-- ===== src/Protocols/Chunked/Sending.antt =====
-- The writer over a stream that takes all it is given.
use lib_mantids.Common.{
  ℕ, ◌+◌, ◌%◌, ◌^◌, ◌≤◌, ◌<◌, ◌≡◌, refl, sym, ap, ◌∙◌, Bool, true, false, Option, none, some, List,
  [], ◌∷◌, ◌++◌, append_assoc, arith, Bytes, u64_mod, add64, add64-eq, ltb, length, length-append,
}
use lib_mantids.Helpers.Numbers.RoundTrip.{length-hex_digits}
use lib_mantids.Helpers.Numbers.{print_hex}
use lib_mantids.Memory.Streams.{Status, StreamOps, wrote, write_full_stream}
use lib_mantids.Memory.Streams.FullWrite.{Takes, write_full_stream-TakesAll, next_status}
use lib_mantids.Protocols.Chunked.{ChunkedWriter, crlf, strhex, write_data, write, end_buffer}
use lib_mantids.Protocols.Chunked.Framed.{last_text, framed}

pub length-strhex : (pos n : ℕ) → length (strhex pos n) ≤ 12
unfolding strhex print_hex
length-strhex pos n =
    let digits = length-hex_digits 7 (n % 2 ^ 32) [] in
    let line = length-append (print_hex (n % 2 ^ 32)) crlf in ground arith

-- The bytes of all pieces.
abbrev pub total : List Bytes → ℕ
total [] = 0
total (c ∷ cs) = length c + total cs

-- The pieces written one after the other, and the destructor.
unfoldable pub send :
    {S : Type 0} → StreamOps S → List Bytes → ChunkedWriter S → Option (Bool × ChunkedWriter S)
send ops [] w = end_buffer ops w
send ops (c ∷ cs) w = elim (write ops c w) [ none ↦ none | some (status, w') ↦ send ops cs w' ]

module _ {S A : Type 0} (ops : StreamOps S) (view : S → A) (run : A → Bytes → A) (Inv : S → Type 0)
    (run-nil : (a : A) → run a [] ≡ a)
    (run-append : (a : A) (xs ys : Bytes) → run a (xs ++ ys) ≡ run (run a xs) ys)
    (step : (buf : Bytes) (s : S)
      → 0 < length buf
      → length buf < u64_mod
      → Inv s
      → Takes S A view run Inv buf s (ops.write buf s)) where
  -- One write: the size and the bytes are handed on, and all of them are counted.
  pub record Sends (buf : Bytes) (w : ChunkedWriter S) : Type 0 where
    pub after : ChunkedWriter S
    pub returns :
        write ops buf w ≡ some (wrote (length (strhex w.pos (length buf)) + length buf), after)
    pub carried : view after.dst ≡ run (view w.dst) (strhex w.pos (length buf) ++ buf)
    pub moved : after.pos ≡ w.pos + length buf
    pub invariant : Inv after.dst

  write_data-eq :
      (buf : Bytes) (n : ℕ) (w : ChunkedWriter S) (d : S)
      → n + length buf < u64_mod
      → w.pos + length buf < u64_mod
      → write_full_stream ops buf w.dst ≡ some (wrote (length buf), d)
      → write_data ops buf (wrote n) w
        ≡ some (wrote (n + length buf), record w { dst = d; pos = w.pos + length buf })
  unfolding write_data
  write_data-eq buf n w d bound far e =
      rw (e, write_data, next_status n (length buf) bound, add64-eq w.pos (length buf) far)

  write-eq :
      (buf : Bytes) (w : ChunkedWriter S) (d : S)
      → length buf + 64 < u64_mod
      → write_full_stream ops (strhex w.pos (length buf)) w.dst
        ≡ some (wrote (length (strhex w.pos (length buf))), d)
      → write ops buf w
        ≡ write_data ops buf (wrote (length (strhex w.pos (length buf)))) (record w { dst = d })
  unfolding write
  write-eq buf w d bound e =
      let n = length (strhex w.pos (length buf)) in
      let short = length-strhex w.pos (length buf) in
      let no_wrap : ltb (add64 (length buf) 64) (length buf) ≡ false = ground arith in
      rw (no_wrap, e, write, next_status 0 n (omega arith))
        (ap (λ k. write_data ops buf (wrote k) (record w { dst = d })) (omega arith))

  pub write-Sends :
      (buf : Bytes) (w : ChunkedWriter S)
      → length buf + 64 < u64_mod
      → w.pos + length buf < u64_mod
      → Inv w.dst
      → Sends buf w
  write-Sends buf w bound far inv =
      let line = strhex w.pos (length buf) in
      let short = length-strhex w.pos (length buf) in
      let head =
        write_full_stream-TakesAll ops view run Inv run-nil run-append step line w.dst (omega arith)
          inv in
      let tail =
        write_full_stream-TakesAll ops view run Inv run-nil run-append step buf head.after
          (omega arith) head.invariant in
      record {
        after = record w { dst = tail.after; pos = w.pos + length buf };
        returns =
            write-eq buf w head.after bound head.returns
            ∙ write_data-eq buf (length line) (record w { dst = head.after }) tail.after
                (omega arith) far tail.returns;
        carried =
            tail.carried
            ∙ ap (λ a. run a buf) head.carried
            ∙ sym (run-append (view w.dst) line buf);
        moved = refl;
        invariant = tail.invariant;
      }

  end_buffer-eq :
      (w : ChunkedWriter S) (d : S)
      → write_full_stream ops (last_text w.pos) w.dst ≡ some (wrote (length (last_text w.pos)), d)
      → end_buffer ops w ≡ some (true, record w { dst = d })
  unfolding end_buffer
  end_buffer-eq w d e = rw (e, end_buffer)

  send-cons :
      (c : Bytes) (cs : List Bytes) (w w' : ChunkedWriter S) (status : Status)
      → write ops c w ≡ some (status, w')
      → send ops (c ∷ cs) w ≡ send ops cs w'
  unfolding send
  send-cons c cs w w' status e = rw (e, send)

  -- The whole of the text is handed on.
  pub send-framed :
      (cs : List Bytes) (w : ChunkedWriter S)
      → w.pos + total cs + 64 < u64_mod
      → Inv w.dst
      → (after : ChunkedWriter S) × (send ops cs w ≡ some (true, after))
        × (view after.dst ≡ run (view w.dst) (framed w.pos cs))
  unfolding send framed
  send-framed [] w bound inv =
      let short : length (last_text w.pos) < u64_mod = ground arith in
      let t =
        write_full_stream-TakesAll ops view run Inv run-nil run-append step (last_text w.pos) w.dst
          short inv in
      (record w { dst = t.after }, end_buffer-eq w t.after t.returns, t.carried)
  send-framed (c ∷ cs) w bound inv =
      let t = write-Sends c w (omega arith) (omega arith) inv in
      let moved = t.moved in
      let (after, returns, carried) = send-framed cs t.after (omega arith) t.invariant in
      (
        after,
        send-cons c cs w t.after (wrote (length (strhex w.pos (length c)) + length c)) t.returns
            ∙ returns,
        carried
            ∙ ap (λ a. run a (framed t.after.pos cs)) t.carried
            ∙ sym (run-append (view w.dst) (strhex w.pos (length c) ++ c) (framed t.after.pos cs))
            ∙ ap (run (view w.dst)) (
                append_assoc (strhex w.pos (length c)) c (framed t.after.pos cs)
                ∙ ap (λ j. strhex w.pos (length c) ++ (c ++ framed j cs)) t.moved),
      )
