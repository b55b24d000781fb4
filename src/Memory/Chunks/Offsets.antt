-- ===== src/Memory/Chunks/Offsets.antt =====
-- The offsets of the chunks, and the search for the chunk that holds a position.
use lib_mantids.Common.{
  ℕ, zero, suc, ◌+◌, ◌-◌, ◌/◌, ◌≤◌, ◌<◌, ◌≡◌, refl, ap, ◌∙◌, inl, inr, List, [], ◌∷◌, Option, some,
  arith, length, length-append, take_all, lt_or_le, get_elem?, take,
}
use lib_mantids.Memory.Chunk.{Chunk}
use lib_mantids.Memory.Chunk
use lib_mantids.Memory.Chunks.{contents, midpoint, search_pos, get_pos_for_offset}

-- Each chunk begins where the one before it ends.
abbrev pub Consecutive : ℕ → List Chunk → Type 0
Consecutive start [] = Unit {0}
Consecutive start (c ∷ cs) = (c.offset ≡ start) × Consecutive (start + Chunk.size c) cs

-- The bytes that stand before chunk `i`.
abbrev pub start_of : List Chunk → ℕ → ℕ
start_of cs i = length (contents (take i cs))

abbrev pub total : List Chunk → ℕ
total cs = length (contents cs)

record ChunkAt (start : ℕ) (cs : List Chunk) (i : ℕ) : Type 0 where
  chunk : Chunk
  at : get_elem? cs i ≡ some chunk
  begins : chunk.offset ≡ start + start_of cs i
  ends : start_of cs (suc i) ≡ start_of cs i + Chunk.size chunk

chunk_at :
    (start : ℕ) (cs : List Chunk) (i : ℕ)
    → Consecutive start cs
    → i < length cs
    → ChunkAt start cs i
chunk_at start [] i h lt = absurd (omega arith)
chunk_at start (c ∷ cs) zero h lt = record {
  chunk = c;
  at = refl;
  begins = omega arith;
  ends = omega (arith, length-append c.bytes []);
}
chunk_at start (c ∷ cs) (suc i) h lt =
    let r = chunk_at (start + Chunk.size c) cs i h.1 (omega arith) in
    record {
      chunk = r.chunk;
      at = r.at;
      begins = omega (arith, r.begins, length-append c.bytes (contents (take i cs)));
      ends = omega (
        arith,
        r.ends,
        length-append c.bytes (contents (take i cs)),
        length-append c.bytes (contents (take (suc i) cs)),
      );
    }

pub get_elem-lt : (cs : List Chunk) (i : ℕ) (c : Chunk) → get_elem? cs i ≡ some c → i < length cs
get_elem-lt [] i c e = cc
get_elem-lt (d ∷ cs) zero c e = omega arith
get_elem-lt (d ∷ cs) (suc i) c e = omega (arith, get_elem-lt cs i c e)

-- The result of a search that has found the chunk which holds `offset`.
pub record Finds (cs : List Chunk) (offset : ℕ) (r : Option ℕ) : Type 0 where
  pub pos : ℕ
  pub chunk : Chunk
  pub found : r ≡ some pos
  pub at : get_elem? cs pos ≡ some chunk
  pub from : chunk.offset ≤ offset
  pub until : offset < Chunk.next_offset chunk

midpoint_between : (lo hi : ℕ) → lo ≤ hi → (lo ≤ midpoint lo hi) × (midpoint lo hi ≤ hi)
unfolding midpoint
midpoint_between lo hi h = ground arith

module _ (fuel : ℕ) (cs : List Chunk) (offset curpos curmax curmin : ℕ) (c : Chunk)
    (at : get_elem? cs curpos ≡ some c) where
  search_here :
      c.offset ≤ offset
      → offset < Chunk.next_offset c
      → search_pos (suc fuel) cs offset curpos curmax curmin ≡ some curpos
  unfolding search_pos
  search_here p q = ground arith

  search_lower :
      offset < c.offset
      → curmin < curpos
      → search_pos (suc fuel) cs offset curpos curmax curmin
        ≡ search_pos fuel cs offset (midpoint curmin (curpos - 1)) (curpos - 1) curmin
  unfolding search_pos
  search_lower p q = ground arith

  search_upper :
      Chunk.next_offset c ≤ offset
      → curpos < curmax
      → search_pos (suc fuel) cs offset curpos curmax curmin
        ≡ search_pos fuel cs offset (midpoint (curpos + 1) curmax) curmax (curpos + 1)
  unfolding search_pos
  search_upper p q = ground arith

suc_pred : (m n : ℕ) → m < n → suc (n - 1) ≡ n
suc_pred m n h = omega arith

pub add_one : (n : ℕ) → n + 1 ≡ suc n
add_one n = omega arith

-- Positions whose starts differ, differ.
start_of_lt : (cs : List Chunk) (i j : ℕ) → i ≤ j → start_of cs i < start_of cs j → i < j
start_of_lt cs i j h lt = grind arith

-- A range of chunks that holds the position: the search finds its chunk.
search_pos-Finds :
    (fuel : ℕ) (cs : List Chunk) (offset curpos curmax curmin : ℕ)
    → Consecutive 0 cs
    → curmax - curmin < fuel
    → curmin ≤ curpos
    → curpos ≤ curmax
    → curmax < length cs
    → start_of cs curmin ≤ offset
    → offset < start_of cs (suc curmax)
    → Finds cs offset (search_pos fuel cs offset curpos curmax curmin)
search_pos-Finds zero cs offset curpos curmax curmin h f a b l p q = absurd (omega arith)
search_pos-Finds (suc fuel) cs offset curpos curmax curmin h f a b l p q =
    let r = chunk_at 0 cs curpos h (omega arith) in
    elim (lt_or_le offset r.chunk.offset) [
      | inl low ↦
          let strict = start_of_lt cs curmin curpos a (omega (arith, r.begins)) in
          let m = midpoint_between curmin (curpos - 1) (omega arith) in
          rw (search_lower fuel cs offset curpos curmax curmin r.chunk r.at low strict) (
            search_pos-Finds fuel cs offset _ (curpos - 1) curmin h (omega arith) m.0 m.1
              (omega arith) p
              (omega (arith, r.begins, ap (start_of cs) (suc_pred curmin curpos strict))))
      | inr high ↦ elim (lt_or_le offset (Chunk.next_offset r.chunk)) [
        | inl inside ↦ record {
          pos = curpos;
          chunk = r.chunk;
          found = search_here fuel cs offset curpos curmax curmin r.chunk r.at high inside;
          at = r.at;
          from = high;
          until = inside;
        }
        | inr beyond ↦
            let strict =
              start_of_lt cs (suc curpos) (suc curmax) (omega arith)
                (omega (arith, r.begins, r.ends)) in
            let m = midpoint_between (curpos + 1) curmax (omega arith) in
            rw (search_upper fuel cs offset curpos curmax curmin r.chunk r.at beyond (omega arith))
              (search_pos-Finds fuel cs offset _ curmax (curpos + 1) h (omega arith) m.0 m.1 l
                (omega (arith, r.begins, r.ends, ap (start_of cs) (add_one curpos))) q)
      ]
    ]

take_length : (cs : List Chunk) → start_of cs (length cs) ≡ total cs
take_length cs = ap (λ l. length (contents l)) (take_all (length cs) cs (omega arith))

last_start : (cs : List Chunk) → 0 < length cs → start_of cs (suc (length cs - 1)) ≡ total cs
last_start cs h = ap (start_of cs) (suc_pred 0 (length cs) h) ∙ take_length cs

get_pos_for_offset_start :
    (c d : Chunk) (cs : List Chunk) (offset : ℕ)
    → get_pos_for_offset (c ∷ d ∷ cs) offset
      ≡ search_pos
          (length (c ∷ d ∷ cs))
          (c ∷ d ∷ cs)
          offset
          (length (c ∷ d ∷ cs) / 2 - 1)
          (length (c ∷ d ∷ cs) - 1)
          0
unfolding get_pos_for_offset
get_pos_for_offset_start c d cs offset = ground arith

-- Every position inside the container is found, in the chunk that holds it.
pub get_pos_for_offset-Finds :
    (cs : List Chunk) (offset : ℕ)
    → Consecutive 0 cs
    → offset < total cs
    → Finds cs offset (get_pos_for_offset cs offset)
get_pos_for_offset-Finds [] offset h q = absurd (omega arith)
get_pos_for_offset-Finds (c ∷ []) offset h q =
    unfold get_pos_for_offset in
    search_pos-Finds 1 (c ∷ []) offset 0 0 0 h (omega arith) (omega arith) (omega arith)
      (omega arith) (omega arith) q
get_pos_for_offset-Finds (c ∷ d ∷ cs) offset h q =
    let all : List Chunk = c ∷ d ∷ cs in
    rw (get_pos_for_offset_start c d cs offset) (
      search_pos-Finds (length all) all offset (length all / 2 - 1) (length all - 1) 0 h
        (omega arith) (omega arith) (omega arith) (omega arith) (omega arith)
        (omega (arith, last_start all (omega arith))))

pub get_elem-begins :
    (cs : List Chunk) (i : ℕ) (c : Chunk)
    → Consecutive 0 cs
    → get_elem? cs i ≡ some c
    → c.offset ≡ start_of cs i
get_elem-begins cs i c h e =
    let r = chunk_at 0 cs i h (get_elem-lt cs i c e) in ground (arith, r.at, r.begins)
