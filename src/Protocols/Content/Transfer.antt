-- ===== src/Protocols/Content/Transfer.antt =====
-- A chunked content that comes in at once: its chunks are handed to outStream one after the other, and
-- the chunk of size 0 ends it.
use lib_mantids.Common.{
  ℕ, zero, suc, ◌+◌, ◌*◌, ◌≤◌, ◌<◌, ◌≡◌, refl, sym, ap, ◌∙◌, Bool, true, false, Option, some, List,
  [], ◌∷◌, ◌++◌, arith, Bytes, Outcome, u64_mod, length, length-append,
}
use lib_mantids.Helpers.Numbers.{hex_digits, print_hex}
use lib_mantids.Memory.Container.{ContainerOps}
use lib_mantids.Memory.Ref.Handing.{Hands}
use lib_mantids.Memory.Subparser.{get_more_data}
use lib_mantids.Memory.Subparser.Lines.{IsBuffer}
use lib_mantids.Memory.Parser.{parse_data}
use lib_mantids.Memory.Parser.Steps.{ended, parse_data-end}
use lib_mantids.Protocols.Chunked.Framed.{body, AllChunks}
use lib_mantids.Protocols.Content.{u32_max, Receiver, content_ops}
use lib_mantids.Protocols.Content.Rounds.{IsReceiving, ends, awaits, takes_chunk}
use lib_mantids.Protocols.Content.Lines.{reads_last}

-- The stream after the chunks.
abbrev pub put_all : {S : Type 0} → (Bytes → S → S) → List Bytes → S → S
put_all put [] s = s
put_all put (c ∷ cs) s = put_all put cs (put c s)

pub length-body :
    (cs : List Bytes) (tail : Bytes) → length (body cs tail) ≡ length (body cs []) + length tail
unfolding body
length-body [] tail = omega arith
length-body (c ∷ cs) tail = omega (
  arith,
  length-body cs tail,
  length-append (print_hex (length c)) (13 ∷ 10 ∷ (c ++ 13 ∷ 10 ∷ body cs tail)),
  length-append (print_hex (length c)) (13 ∷ 10 ∷ (c ++ 13 ∷ 10 ∷ body cs [])),
  length-append c (13 ∷ 10 ∷ body cs tail),
  length-append c (13 ∷ 10 ∷ body cs []),
)

length-body_cons :
    (c : Bytes) (cs : List Bytes)
    → length (body (c ∷ cs) [])
      ≡ length (print_hex (length c)) + 2 + (length c + (2 + length (body cs [])))
unfolding body
length-body_cons c cs = omega (
  arith,
  length-append (print_hex (length c)) (13 ∷ 10 ∷ (c ++ 13 ∷ 10 ∷ body cs [])),
  length-append c (13 ∷ 10 ∷ body cs []),
)

body_pos : (cs : List Bytes) → 0 < length (body cs [])
unfolding body
body_pos [] = omega arith
body_pos (c ∷ cs) = omega (arith, length-body_cons c cs)

module _ {C S : Type 0} (ops : ContainerOps C) (view : C → Bytes) (Inv : C → Type 0)
    (stops : ℕ → ℕ → Bool) (capacity : ℕ) (buffer : IsBuffer ops view Inv stops capacity)
    (copy : C → ℕ → ℕ → S → Option (Outcome × S)) (write_eof : Bool → S → Option S)
    (put : Bytes → S → S) (hands : Hands ops view Inv buffer.readable copy put) where
  -- The content ends: what parseData leaves, and what outStream has been told.
  pub record EndsWith (max_ttl fuel ttl calls n : ℕ) (text : Bytes) (r : Receiver C S)
      (out : Option S) : Type 0 where
    pub after : Receiver C S
    pub returns :
        parse_data (content_ops ops copy write_eof) fuel max_ttl r text ttl false
        ≡ some (ended true after (ttl + calls) n)
    pub told : after.content.object.out ≡ out
    pub closed : after.current ≡ false

  receives_last :
      (most m max_ttl fuel ttl : ℕ) (tail : Bytes) (s : S) (r : Receiver C S)
      → IsReceiving ops view Inv stops capacity buffer copy write_eof put hands most m s r
      → ttl ≤ max_ttl
      → EndsWith max_ttl (suc fuel) ttl 1 3 (b'0' ∷ 13 ∷ 10 ∷ tail) r (write_eof true s)
  unfolding hex_digits
  receives_last most m max_ttl fuel ttl tail s r receiving alive =
      let (p, p_read, p_status, told) =
        reads_last ops view Inv stops capacity buffer copy write_eof put hands most m s
          (record r.content { parse_status = get_more_data }) 7 0 tail
          (awaits ops view Inv stops capacity buffer copy write_eof put hands most m s r 0 receiving
            (omega arith))
          refl in
      record {
        after = record { content = p; current = false };
        returns =
            parse_data-end (content_ops ops copy write_eof) fuel max_ttl ttl 3 r
              (record { content = p; current = false }) (b'0' ∷ 13 ∷ 10 ∷ tail) alive
              (ends ops view Inv stops capacity buffer copy write_eof put hands r
                (b'0' ∷ 13 ∷ 10 ∷ tail) 3 p receiving.current p_read p_status);
        told = told;
        closed = refl;
      }

  pub receives :
      (most m longest max_ttl : ℕ) (cs : List Bytes) (tail : Bytes) (s : S) (r : Receiver C S)
      (fuel ttl : ℕ)
      → IsReceiving ops view Inv stops capacity buffer copy write_eof put hands most m s r
      → longest ≤ most
      → longest ≤ capacity
      → longest < u32_max
      → AllChunks longest cs
      → ttl + 3 * length cs ≤ max_ttl
      → 3 * length cs < fuel
      → length (body cs tail) < u64_mod
      → EndsWith max_ttl fuel ttl
          (3 * length cs + 1)
          (length (body cs []))
          (body cs tail)
          r
          (write_eof true (put_all put cs s))
  unfolding body
  receives most m longest max_ttl cs tail s r zero ttl receiving le held below all alive enough
        bound =
      absurd (omega arith)
  receives most m longest max_ttl [] tail s r (suc fuel) ttl receiving le held below all alive
        enough bound =
      receives_last most m max_ttl fuel ttl tail s r receiving (omega arith)
  receives most m longest max_ttl (c ∷ cs) tail s r (suc zero) ttl receiving le held below all alive
        enough bound =
      absurd (omega arith)
  receives most m longest max_ttl (c ∷ cs) tail s r (suc (suc zero)) ttl receiving le held below all
        alive enough bound =
      absurd (omega arith)
  receives most m longest max_ttl (c ∷ cs) tail s r (suc (suc (suc fuel))) ttl receiving le held
        below ((pos, short), all) alive enough bound =
      let rest = body cs tail in
      let t =
        takes_chunk ops view Inv stops capacity buffer copy write_eof put hands most m s r c rest
          receiving pos (omega arith) (omega arith) (omega arith) in
      let n = length (body cs []) in
      let whole = length-body cs tail in
      let e =
        receives most 1024 longest max_ttl cs tail (put c s) t.after fuel (ttl + 1 + 1 + 1)
          t.receiving le held below all (omega arith) (omega arith)
          (omega (
            arith,
            length-append (print_hex (length c)) (13 ∷ 10 ∷ (c ++ 13 ∷ 10 ∷ rest)),
            length-append c (13 ∷ 10 ∷ rest),
          )) in
      record {
        after = e.after;
        returns =
            t.returns fuel max_ttl ttl n (ttl + 1 + 1 + 1 + (3 * length cs + 1)) e.after
              (omega arith) (body_pos cs) (omega arith) bound e.returns
            ∙ ap
                (λ j.
                  some (
                    ended true e.after j
                      (length (print_hex (length c)) + 2 + (length c + (2 + n)))))
                {x = ttl + 1 + 1 + 1 + (3 * length cs + 1)} {y = ttl + (3 * length (c ∷ cs) + 1)}
                (omega arith)
            ∙ ap (λ j. some (ended true e.after (ttl + (3 * length (c ∷ cs) + 1)) j))
                (sym (length-body_cons c cs));
        told = e.told;
        closed = e.closed;
      }
