-- ===== src/Protocols/UrlEncoder/RoundTrip.antt =====
-- The encoder's rounds are an escape of each byte, which the decoder reads back.
use lib_mantids.Common.{
  ℕ, zero, suc, ◌+◌, ◌*◌, ◌≤◌, ◌<◌, ◌≡◌, refl, sym, ap, ◌∙◌, inl, inr, not, none, some, [], ◌∷◌,
  ◌++◌, append-nil, append_assoc, arith, Bytes, u64_mod, if◌then◌else◌, Bool-cases, le→ltb-false,
  lt→ltb, lt_or_le, length, take, drop, length-append, length-take, length-drop,
}
use lib_mantids.Memory.Streams.{Written, StreamOps, wrote, add_status, write_full_stream}
use lib_mantids.Memory.Streams.FullWrite.{Takes, next_status, write_full_stream-TakesAll}
use lib_mantids.Protocols.UrlEncoder.{
  UrlEncoder, should_encode_this_byte, get_plain_bytes_size, encoded_byte, max_stream, next_piece,
  encode_loop, write,
}

unfoldable pub escape_bytes : Bytes → Bytes
escape_bytes [] = []
escape_bytes (c ∷ buf) =
    (if should_encode_this_byte c then encoded_byte c else c ∷ []) ++ escape_bytes buf

pub length-escape_bytes : (buf : Bytes) → length (escape_bytes buf) ≤ 3 * length buf
unfolding escape_bytes
length-escape_bytes [] = omega arith
length-escape_bytes (c ∷ buf) = elim (Bool-cases (should_encode_this_byte c)) [
  | inl e ↦ rw e (omega (arith, length-escape_bytes buf))
  | inr e ↦ rw e (omega (arith, length-escape_bytes buf))
]

-- A run of bytes that need no escape is written as it is.
plain_part :
    (buf : Bytes)
    → escape_bytes buf
      ≡ take (get_plain_bytes_size buf) buf ++ escape_bytes (drop (get_plain_bytes_size buf) buf)
unfolding escape_bytes get_plain_bytes_size
plain_part [] = refl
plain_part (c ∷ buf) = elim (Bool-cases (should_encode_this_byte c)) [
  | inl e ↦ rw e (ap (λ t. (if t then encoded_byte c else c ∷ []) ++ escape_bytes buf) (sym e))
  | inr e ↦ rw e (ap (◌∷◌ c) (plain_part buf))
]

plain_within : (buf : Bytes) → get_plain_bytes_size buf ≤ length buf
unfolding get_plain_bytes_size
plain_within [] = omega arith
plain_within (c ∷ buf) = ground (arith, plain_within buf)

no_plain :
    (c : ℕ) (buf : Bytes)
    → get_plain_bytes_size (c ∷ buf) ≤ 0
    → escape_bytes (c ∷ buf) ≡ encoded_byte c ++ escape_bytes buf
unfolding escape_bytes get_plain_bytes_size
no_plain c buf h = elim (Bool-cases (should_encode_this_byte c)) [
  | inl e ↦ rw e refl
  | inr e ↦ absurd (ground arith)
]

record Piece (c : ℕ) (buf : Bytes) (piece : Bytes × ℕ) : Type 0 where
  moves : 0 < piece.1
  within : piece.1 ≤ suc (length buf)
  fits : length piece.0 < u64_mod
  first : escape_bytes (c ∷ buf) ≡ piece.0 ++ escape_bytes (drop piece.1 (c ∷ buf))

next_piece-Piece :
    (c : ℕ) (buf : Bytes) → suc (length buf) < u64_mod → Piece c buf (next_piece (c ∷ buf))
unfolding next_piece
next_piece-Piece c buf bound = elim (lt_or_le 0 (get_plain_bytes_size (c ∷ buf))) [
  | inl some_plain ↦ rw (lt→ltb 0 (get_plain_bytes_size (c ∷ buf)) some_plain) record {
    moves = some_plain;
    within = plain_within (c ∷ buf);
    fits = omega (arith, length-take (get_plain_bytes_size (c ∷ buf)) (c ∷ buf));
    first = plain_part (c ∷ buf);
  }
  | inr none_plain ↦ rw (le→ltb-false 0 (get_plain_bytes_size (c ∷ buf)) none_plain) record {
    moves = omega arith;
    within = omega arith;
    fits = omega arith;
    first = no_plain c buf none_plain;
  }
]

encode_round :
    {S : Type 0} (ops : StreamOps S) (fuel c : ℕ) (buf : Bytes) (n k : ℕ) (e : UrlEncoder S) (s : S)
    → n + k < u64_mod
    → write_full_stream ops (next_piece (c ∷ buf)).0 e.orig ≡ some (wrote k, s)
    → encode_loop ops (suc fuel) (c ∷ buf) (wrote n) e
      ≡ encode_loop ops fuel
          (drop (next_piece (c ∷ buf)).1 (c ∷ buf))
          (wrote (n + k))
          (record e { orig = s })
unfolding encode_loop add_status
encode_round ops fuel c buf n k e s bound h =
    let left : Bytes = drop (next_piece (c ∷ buf)).1 (c ∷ buf) in
    ap
      (λ result. elim result [
        | none ↦ none
        | some r ↦
            if not (add_status (wrote n) r.0).succeed
            then some (add_status (wrote n) r.0, record e { orig = r.1 })
            else encode_loop ops fuel left (add_status (wrote n) r.0) (record e { orig = r.1 })
      ])
      h
    ∙ ap (λ st. encode_loop ops fuel left st (record e { orig = s })) (next_status n k bound)

module _ {S : Type 0} (ops : StreamOps S) (written : S → Bytes) (InvS : S → Type 0)
    (step : (buf : Bytes) (s : S)
      → 0 < length buf
      → length buf < u64_mod
      → InvS s
      → Takes S Bytes written ◌++◌ InvS buf s (ops.write buf s)) where
  -- The encoder has written the escapes of the bytes, and counts what it has written.
  unfoldable pub Encoded : Bytes → ℕ → UrlEncoder S → Written (UrlEncoder S) → Type 0
  Encoded buf n e result =
      (s : S) × (result ≡ some (wrote (n + length (escape_bytes buf)), record e { orig = s }))
      × (written s ≡ written e.orig ++ escape_bytes buf)
      × InvS s

  every_round :
      (fuel : ℕ) (buf : Bytes) (n : ℕ) (e : UrlEncoder S)
      → length buf ≤ fuel
      → length buf + 1 < u64_mod
      → n + length (escape_bytes buf) < u64_mod
      → InvS e.orig
      → Encoded buf n e (encode_loop ops fuel buf (wrote n) e)
  unfolding Encoded encode_loop
  every_round fuel [] n e enough bound fits inv = (
    e.orig,
    unfold escape_bytes in ap (λ k. some (wrote k, e)) {x = n} {y = n + 0} (omega arith),
    unfold escape_bytes in sym (append-nil (written e.orig)),
    inv,
  )
  every_round zero (c ∷ buf) n e enough bound fits inv = absurd (omega arith)
  every_round (suc fuel) (c ∷ buf) n e enough bound fits inv =
      let piece = next_piece (c ∷ buf) in
      let p = next_piece-Piece c buf (omega arith) in
      let left : Bytes = drop piece.1 (c ∷ buf) in
      let k : ℕ = length piece.0 in
      let total : length (escape_bytes (c ∷ buf)) ≡ k + length (escape_bytes left) =
        ap length p.first ∙ length-append piece.0 (escape_bytes left) in
      let all =
        write_full_stream-TakesAll ops written ◌++◌ InvS append-nil
          (λ a xs ys. sym (append_assoc a xs ys)) step piece.0 e.orig p.fits inv in
      let next =
        every_round fuel left (n + k) (record e { orig = all.after })
          (omega (arith, length-drop piece.1 (c ∷ buf), p.moves))
          (omega (arith, length-drop piece.1 (c ∷ buf))) (omega (arith, total)) all.invariant in
      (
        next.0,
        encode_round ops fuel c buf n k e all.after (omega (arith, total)) all.returns
            ∙ next.1
            ∙ ap (λ m. some (wrote m, record e { orig = next.0 }))
                {x = n + k + length (escape_bytes left)} {y = n + length (escape_bytes (c ∷ buf))}
                (omega (arith, total)),
        next.2
            ∙ ap (λ l. l ++ escape_bytes left) all.carried
            ∙ append_assoc (written e.orig) piece.0 (escape_bytes left)
            ∙ ap (◌++◌ (written e.orig)) (sym p.first),
        next.3,
      )

  -- In front of an object that takes what it is given, write returns with success for every buffer
  -- up to the limit, and what goes on is the escape of each byte in order.
  pub write-Encoded :
      (buf : Bytes) (e : UrlEncoder S)
      → length buf ≤ max_stream
      → InvS e.orig
      → Encoded buf 0 e (write ops buf e)
  unfolding write
  write-Encoded buf e le inv = rw (le→ltb-false max_stream (length buf) le) (
      every_round (length buf) buf 0 e (omega arith) (omega arith)
        (omega (arith, length-escape_bytes buf)) inv)
