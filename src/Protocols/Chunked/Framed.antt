-- ===== src/Protocols/Chunked/Framed.antt =====
-- The text of a chunked content, as the writer forms it and as the reader takes it.
use lib_mantids.Common.{
  ℕ, ◌+◌, ◌%◌, ◌^◌, ◌≤◌, ◌<◌, ◌≡◌, refl, ap, ◌∙◌, List, [], ◌∷◌, ◌++◌, arith, append_assoc, Bytes,
  ◌==◌, if◌then◌else◌, length,
}
use lib_mantids.Helpers.Numbers.{print_hex}
use lib_mantids.Memory.Subparser.Lines.{positive}
use lib_mantids.Protocols.Chunked.{crlf, strhex}

-- The text that ends a content, and the whole of it from a position on.
abbrev pub last_text : ℕ → Bytes
last_text pos = if pos == 0 then b'0' ∷ (crlf ++ crlf) else crlf ++ b'0' ∷ (crlf ++ crlf)

unfoldable pub framed : ℕ → List Bytes → Bytes
framed pos [] = last_text pos
framed pos (c ∷ cs) = strhex pos (length c) ++ (c ++ framed (pos + length c) cs)

-- The chunks with their sizes, and the chunk of size 0, in front of more bytes.
unfoldable pub body : List Bytes → Bytes → Bytes
body [] tail = b'0' ∷ 13 ∷ 10 ∷ tail
body (c ∷ cs) tail = print_hex (length c) ++ 13 ∷ 10 ∷ (c ++ 13 ∷ 10 ∷ body cs tail)

-- Chunks that are not empty, and no longer than a limit.
abbrev pub AllChunks : ℕ → List Bytes → Type 0
AllChunks most [] = Unit {0}
AllChunks most (c ∷ cs) = ((0 < length c) × (length c ≤ most)) × AllChunks most cs

small_size : (n : ℕ) → n < 2 ^ 32 → n % 2 ^ 32 ≡ n
small_size n h = omega arith

strhex-first : (n : ℕ) → n < 2 ^ 32 → strhex 0 n ≡ print_hex n ++ crlf
unfolding strhex
strhex-first n h = ap (λ k. print_hex k ++ crlf) (small_size n h)

strhex-later : (pos n : ℕ) → 0 < pos → n < 2 ^ 32 → strhex pos n ≡ crlf ++ (print_hex n ++ crlf)
unfolding strhex
strhex-later pos n more h =
    rw (positive pos more) (ap (λ k. crlf ++ (print_hex k ++ crlf)) (small_size n h))

framed-later :
    (most pos : ℕ) (cs : List Bytes)
    → most < 2 ^ 32
    → AllChunks most cs
    → 0 < pos
    → framed pos cs ≡ crlf ++ body cs crlf
unfolding framed body
framed-later most pos [] below all more = rw (positive pos more)
framed-later most pos (c ∷ cs) below ((some_bytes, short), all) more =
    ap (λ l. l ++ (c ++ framed (pos + length c) cs))
      (strhex-later pos (length c) more (omega arith))
    ∙ ap (λ rest. (crlf ++ (print_hex (length c) ++ crlf)) ++ (c ++ rest))
        (framed-later most (pos + length c) cs below all (omega arith))
    ∙ ap (λ l. 13 ∷ 10 ∷ l) (append_assoc (print_hex (length c)) crlf (c ++ (crlf ++ body cs crlf)))

-- What the writer forms from its beginning on.
pub framed-body :
    (most : ℕ) (cs : List Bytes) → most < 2 ^ 32 → AllChunks most cs → framed 0 cs ≡ body cs crlf
unfolding framed body
framed-body most [] below all = refl
framed-body most (c ∷ cs) below ((some_bytes, short), all) =
    ap (λ l. l ++ (c ++ framed (0 + length c) cs)) (strhex-first (length c) (omega arith))
    ∙ ap (λ rest. (print_hex (length c) ++ crlf) ++ (c ++ rest))
        (framed-later most (0 + length c) cs below all (omega arith))
    ∙ append_assoc (print_hex (length c)) crlf (c ++ (crlf ++ body cs crlf))
