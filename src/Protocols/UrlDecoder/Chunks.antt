-- ===== src/Protocols/UrlDecoder/Chunks.antt =====
-- The decoder, fed in pieces of any lengths, is an automaton that reads single bytes.
use mathlib.Core.Path.{subst}
use lib_mantids.Common.{
  ℕ, zero, suc, ◌≤◌, ◌<◌, ◌≡◌, refl, sym, ap, ◌∙◌, inl, inr, some, [], ◌∷◌, ◌++◌, append-nil,
  append_assoc, arith, Bytes, u64_mod, ◌==◌, Bool-cases, length, take, length-take,
}
use lib_mantids.Helpers.Hex.{is_xdigit, hex_pair_to_byte}
use lib_mantids.Memory.Streams.{StreamOps, wrote, write_full_stream}
use lib_mantids.Memory.Streams.FullWrite.{Takes, TakesAll, write_full_stream-TakesAll}
use lib_mantids.Protocols.UrlDecoder.{
  UrlDecoder, get_plain_bytes_size, hand_on, flush_bytes, write_plain, write_first_digit,
  write_second_digit, write, url_decoder,
}
use lib_mantids.Protocols.UrlDecoder.Automaton.{
  Reading, decode_byte, decode_bytes, nothing, decode_bytes-append, percent_sign, plus_sign,
  first_digit, no_first_digit, second_digit, no_second_digit, plain_run, plain_within, some_plain,
  plain_calls, second_calls, phase, plain, percent, digit,
}

module _ {S : Type 0} (ops : StreamOps S) (written : S → Bytes) (InvS : S → Type 0)
    (step : (buf : Bytes) (s : S)
      → 0 < length buf
      → length buf < u64_mod
      → InvS s
      → Takes S Bytes written ◌++◌ InvS buf s (ops.write buf s)) where
  abbrev pub reading : UrlDecoder S → Reading
  reading d = (written d.orig, phase d.filled d.bytes1)

  pub record IsReading (d : UrlDecoder S) : Type 0 where
    pub at_most_two : d.filled ≤ 2
    pub starts_percent : (0 < d.filled) → d.bytes0 ≡ b'%'
    pub orig_inv : InvS d.orig

  handed_on :
      (out : Bytes) (taken : ℕ) (d : UrlDecoder S)
      → length out < u64_mod
      → InvS d.orig
      → (s : S) × (hand_on ops out taken d ≡ some (wrote taken, record d { orig = s }))
        × (written s ≡ written d.orig ++ out)
        × InvS s
  unfolding hand_on
  handed_on out taken d bound inv =
      let all =
        write_full_stream-TakesAll ops written ◌++◌ InvS append-nil
          (λ a xs ys. sym (append_assoc a xs ys)) step out d.orig bound inv in
      (all.after, rw (all.returns, hand_on) refl, all.carried, all.invariant)

  -- A step that hands bytes on, and one that waits.
  hands :
      (buf out : Bytes) (taken : ℕ) (d d' : UrlDecoder S)
      → length out < u64_mod
      → 0 < taken
      → taken ≤ length buf
      → IsReading d'
      → decode_bytes (reading d) (take taken buf)
        ≡ (written d'.orig ++ out, phase d'.filled d'.bytes1)
      → Takes (UrlDecoder S) Reading reading decode_bytes IsReading buf d (hand_on ops out taken d')
  hands buf out taken d d' bound some_taken within r e =
      let h = handed_on out taken d' bound r.orig_inv in
      record {
        taken = taken;
        after = record d' { orig = h.0 };
        some_taken = some_taken;
        not_beyond = within;
        returns = h.1;
        carried = ap (λ l. (l, phase d'.filled d'.bytes1)) h.2 ∙ sym e;
        invariant = record {
          at_most_two = r.at_most_two;
          starts_percent = r.starts_percent;
          orig_inv = h.3;
        };
      }

  waits :
      (c : ℕ) (buf : Bytes) (d d' : UrlDecoder S)
      → IsReading d'
      → decode_byte (reading d) c ≡ reading d'
      → Takes (UrlDecoder S) Reading reading decode_bytes IsReading (c ∷ buf) d (some (wrote 1, d'))
  unfolding decode_bytes
  waits c buf d d' r e = record {
    taken = 1;
    after = d';
    some_taken = omega arith;
    not_beyond = omega arith;
    returns = refl;
    carried = sym e;
    invariant = r;
  }

  one_byte :
      (r : Reading) (c : ℕ) (buf : Bytes) → decode_bytes r (take 1 (c ∷ buf)) ≡ decode_byte r c
  unfolding decode_bytes
  one_byte r c buf = refl

  abbrev decoder : ℕ → ℕ → ℕ → ℕ → S → UrlDecoder S
  decoder b0 b1 b2 n s = record { bytes0 = b0; bytes1 = b1; bytes2 = b2; filled = n; orig = s }

  in_phase :
      (b0 b1 b2 : ℕ) (n : ℕ) (s : S)
      → n ≤ 2
      → (0 < n → b0 ≡ b'%')
      → InvS s
      → IsReading (decoder b0 b1 b2 n s)
  in_phase b0 b1 b2 n s le p inv = record { at_most_two = le; starts_percent = p; orig_inv = inv }

  step_plain :
      (c : ℕ) (buf : Bytes) (b0 b1 b2 : ℕ) (s : S)
      → suc (length buf) < u64_mod
      → InvS s
      → Takes
          (UrlDecoder S)
          Reading
          reading
          decode_bytes
          IsReading
          (c ∷ buf)
          (decoder b0 b1 b2 0 s)
          (write_plain ops c buf (decoder b0 b1 b2 0 s))
  unfolding write_plain
  step_plain c buf b0 b1 b2 s bound inv = elim (Bool-cases (c == b'%')) [
    | inl e ↦ rw e (
        waits c buf (decoder b0 b1 b2 0 s) (decoder b'%' b1 b2 1 s)
          (in_phase b'%' b1 b2 1 s (omega arith) (λ h. refl) inv) (percent_sign (written s) c e))
    | inr e ↦ elim (Bool-cases (c == b'+')) [
      | inl p ↦
          rw (e, p)
            (hands (c ∷ buf) (32 ∷ []) 1 (decoder b0 b1 b2 0 s) (decoder 32 b1 b2 0 s) (omega arith)
              (omega arith) (omega arith)
              (in_phase 32 b1 b2 0 s (omega arith) (λ h. absurd (omega arith)) inv)
              (one_byte (written s, plain) c buf ∙ plus_sign (written s) c e p))
      | inr p ↦
          let d : UrlDecoder S = decoder b0 b1 b2 0 s in
          let run : ℕ = get_plain_bytes_size (c ∷ buf) in
          rw (plain_calls ops c buf d (some_plain c buf e p)) (
            hands (c ∷ buf) (take run (c ∷ buf)) run d d (omega (arith, length-take run (c ∷ buf)))
              (some_plain c buf e p) (plain_within (c ∷ buf))
              (in_phase b0 b1 b2 0 s (omega arith) (λ h. absurd (omega arith)) inv)
              (plain_run (written s) (c ∷ buf)))
    ]
  ]

  step_first_digit :
      (c : ℕ) (buf : Bytes) (b1 b2 : ℕ) (s : S)
      → InvS s
      → Takes
          (UrlDecoder S)
          Reading
          reading
          decode_bytes
          IsReading
          (c ∷ buf)
          (decoder b'%' b1 b2 1 s)
          (write_first_digit ops c (decoder b'%' b1 b2 1 s))
  unfolding write_first_digit flush_bytes
  step_first_digit c buf b1 b2 s inv = elim (Bool-cases (is_xdigit c)) [
    | inl e ↦ rw e (
        waits c buf (decoder b'%' b1 b2 1 s) (decoder b'%' c b2 2 s)
          (in_phase b'%' c b2 2 s (omega arith) (λ h. refl) inv) (first_digit (written s) c e))
    | inr e ↦ rw e (
        hands (c ∷ buf) (b'%' ∷ c ∷ []) 1 (decoder b'%' b1 b2 1 s) (decoder b'%' c b2 0 s)
          (omega arith) (omega arith) (omega arith)
          (in_phase b'%' c b2 0 s (omega arith) (λ h. refl) inv)
          (one_byte (written s, percent) c buf ∙ no_first_digit (written s) c e))
  ]

  step_second_digit :
      (c : ℕ) (buf : Bytes) (b1 b2 : ℕ) (s : S)
      → InvS s
      → Takes
          (UrlDecoder S)
          Reading
          reading
          decode_bytes
          IsReading
          (c ∷ buf)
          (decoder b'%' b1 b2 2 s)
          (write_second_digit ops c (decoder b'%' b1 b2 2 s))
  unfolding write_second_digit flush_bytes
  step_second_digit c buf b1 b2 s inv = elim (Bool-cases (is_xdigit c)) [
    | inl e ↦ rw (second_calls ops c (decoder b'%' b1 b2 2 s) e) (
        hands (c ∷ buf) (hex_pair_to_byte b1 c ∷ []) 1 (decoder b'%' b1 b2 2 s)
          (decoder b'%' b1 c 0 s) (omega arith) (omega arith) (omega arith)
          (in_phase b'%' b1 c 0 s (omega arith) (λ h. refl) inv)
          (one_byte (written s, digit b1) c buf ∙ second_digit (written s) b1 c e))
    | inr e ↦ rw e (
        hands (c ∷ buf) (b'%' ∷ b1 ∷ c ∷ []) 1 (decoder b'%' b1 b2 2 s) (decoder b'%' b1 c 0 s)
          (omega arith) (omega arith) (omega arith)
          (in_phase b'%' b1 c 0 s (omega arith) (λ h. refl) inv)
          (one_byte (written s, digit b1) c buf ∙ no_second_digit (written s) b1 c e))
  ]

  step_filled :
      (c : ℕ) (buf : Bytes) (b0 b1 b2 n : ℕ) (s : S)
      → suc (length buf) < u64_mod
      → n ≤ 2
      → (0 < n → b0 ≡ b'%')
      → InvS s
      → Takes
          (UrlDecoder S)
          Reading
          reading
          decode_bytes
          IsReading
          (c ∷ buf)
          (decoder b0 b1 b2 n s)
          (write ops (c ∷ buf) (decoder b0 b1 b2 n s))
  unfolding write
  step_filled c buf b0 b1 b2 zero s bound le p inv = step_plain c buf b0 b1 b2 s bound inv
  step_filled c buf b0 b1 b2 (suc zero) s bound le p inv =
      subst
        (λ b.
          Takes (UrlDecoder S) Reading reading decode_bytes IsReading (c ∷ buf)
            (decoder b b1 b2 1 s) (write_first_digit ops c (decoder b b1 b2 1 s)))
        (sym (p (omega arith))) (step_first_digit c buf b1 b2 s inv)
  step_filled c buf b0 b1 b2 (suc (suc zero)) s bound le p inv =
      subst
        (λ b.
          Takes (UrlDecoder S) Reading reading decode_bytes IsReading (c ∷ buf)
            (decoder b b1 b2 2 s) (write_second_digit ops c (decoder b b1 b2 2 s)))
        (sym (p (omega arith))) (step_second_digit c buf b1 b2 s inv)
  step_filled c buf b0 b1 b2 (suc (suc (suc n))) s bound le p inv = absurd (omega arith)

  step_any :
      (buf : Bytes) (d : UrlDecoder S)
      → 0 < length buf
      → length buf < u64_mod
      → IsReading d
      → Takes (UrlDecoder S) Reading reading decode_bytes IsReading buf d (write ops buf d)
  step_any [] d pos bound r = absurd (omega arith)
  step_any (c ∷ buf) d pos bound r =
      step_filled c buf d.bytes0 d.bytes1 d.bytes2 d.filled d.orig bound r.at_most_two
        r.starts_percent r.orig_inv

  -- From every valid state of the URL decoder stream, a write of a buffer of less than 2 ^ 64 bytes
  -- returns with success for all of them, and the output and the phase are what an automaton makes
  -- that reads the bytes one by one, when each call of write of the object behind takes one or more
  -- of the bytes it is given and passes on what it takes.
  pub url_decoder-TakesAll :
      (buf : Bytes) (d : UrlDecoder S)
      → length buf < u64_mod
      → IsReading d
      → TakesAll
          (UrlDecoder S)
          Reading
          reading
          decode_bytes
          IsReading
          buf
          d
          (write_full_stream (url_decoder ops) buf d)
  unfolding url_decoder write
  url_decoder-TakesAll buf d bound r =
      write_full_stream-TakesAll (url_decoder ops) reading decode_bytes IsReading nothing
        decode_bytes-append step_any buf d bound r
