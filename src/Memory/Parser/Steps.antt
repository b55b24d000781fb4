-- ===== src/Memory/Parser/Steps.antt =====
-- One call of parseData that goes to the next subparser, and the one behind it.
use lib_mantids.Common.{
  ℕ, suc, ◌+◌, ◌≤◌, ◌<◌, ◌≡◌, ap, ◌∙◌, Bool, true, false, some, arith, Bytes, u64_mod, add64-eq,
  ◌==◌, le→ltb-false, length, drop,
}
use lib_mantids.Memory.Subparser.{get_more_data, goto_next_subparser}
use lib_mantids.Memory.Streams.{wrote, add_status}
use lib_mantids.Memory.Parser.{ParserOps, Parsed, go_on, after_write, parse_step, parse_data, write}

abbrev pub ended : {P : Type 0} → Bool → P → ℕ → ℕ → Parsed P
ended finished state ttl n = record {
  state = state;
  ttl = ttl;
  finished = finished;
  outcome = (true, n);
}

abbrev pub took : {P : Type 0} → P → ℕ → ℕ → Parsed P
took state ttl n = ended false state ttl n

same_test : (n : ℕ) → (n == n) ≡ true
same_test n = ground arith

differ_test : (n m : ℕ) → n < m → (n == m) ≡ false
differ_test n m h = ground arith

module _ {P : Type 0} (ops : ParserOps P) where
  -- The subparser takes `n` bytes and asks for the next subparser, of which there is one.
  pub record Moves (p : P) (buf : Bytes) (n : ℕ) (s : P) : Type 0 where
    pub current : ops.has_parser p ≡ true
    pub middle : P
    pub written : ops.write_into_parser p buf ≡ some (middle, (true, n))
    pub status : ops.get_parse_status middle ≡ goto_next_subparser
    pub changed : ops.change_to_next_parser middle ≡ (s, true)
    pub still : ops.has_parser s ≡ true

  after_write-took :
      (q s : P) (n count ttl : ℕ)
      → ops.get_parse_status q ≡ goto_next_subparser
      → ops.change_to_next_parser q ≡ (s, true)
      → ops.has_parser s ≡ true
      → after_write ops q (true, n) count ttl false ≡ (n == count, took s ttl n)
  unfolding after_write
  after_write-took q s n count ttl status changed still = rw (status, changed, still)

  -- A call of parseData takes `n` bytes, and leaves a subparser for those behind them.
  abbrev pub Steps : P → Bytes → ℕ → P → Type 0
  Steps p buf n s =
      (ttl : ℕ) → parse_step ops p buf ttl false ≡ some (n == length buf, took s ttl n)

  pub Moves-Steps : (p s : P) (buf : Bytes) (n : ℕ) → Moves p buf n s → Steps p buf n s
  unfolding parse_step
  Moves-Steps p s buf n m ttl =
      rw (m.current, m.written)
        (ap some (after_write-took m.middle s n (length buf) ttl m.status m.changed m.still))

  -- The subparser takes `n` bytes and asks for more.
  pub record Stays (p : P) (buf : Bytes) (n : ℕ) (s : P) : Type 0 where
    pub current : ops.has_parser p ≡ true
    pub written : ops.write_into_parser p buf ≡ some (s, (true, n))
    pub status : ops.get_parse_status s ≡ get_more_data

  pub Stays-Steps : (p s : P) (buf : Bytes) (n : ℕ) → Stays p buf n s → Steps p buf n s
  unfolding parse_step after_write
  Stays-Steps p s buf n m ttl = rw (m.current, m.written, parse_step, m.status)

  -- The subparser takes `n` bytes, and is the last one.
  pub record Ends (p : P) (buf : Bytes) (n : ℕ) (s : P) : Type 0 where
    pub current : ops.has_parser p ≡ true
    pub middle : P
    pub written : ops.write_into_parser p buf ≡ some (middle, (true, n))
    pub status : ops.get_parse_status middle ≡ goto_next_subparser
    pub changed : ops.change_to_next_parser middle ≡ (s, true)
    pub without : ops.has_parser s ≡ false

  parse_step-ended :
      (p s : P) (buf : Bytes) (n ttl : ℕ)
      → Ends p buf n s
      → parse_step ops p buf ttl false ≡ some (true, ended true s ttl n)
  unfolding parse_step after_write
  parse_step-ended p s buf n ttl m =
      rw (m.current, m.written, parse_step, m.status, m.changed, m.without)

  parse_data-returns :
      (fuel max_ttl ttl : ℕ) (p : P) (buf : Bytes) (r : Parsed P)
      → ttl ≤ max_ttl
      → parse_step ops p buf (ttl + 1) false ≡ some (true, r)
      → parse_data ops (suc fuel) max_ttl p buf ttl false ≡ some r
  unfolding parse_data
  parse_data-returns fuel max_ttl ttl p buf r alive e = rw (le→ltb-false max_ttl ttl alive, e)

  pub parse_data-end :
      (fuel max_ttl ttl n : ℕ) (p s : P) (buf : Bytes)
      → ttl ≤ max_ttl
      → Ends p buf n s
      → parse_data ops (suc fuel) max_ttl p buf ttl false ≡ some (ended true s (ttl + 1) n)
  parse_data-end fuel max_ttl ttl n p s buf alive m =
      parse_data-returns fuel max_ttl ttl p buf (ended true s (ttl + 1) n) alive
        (parse_step-ended p s buf n (ttl + 1) m)

  pub parse_data-last :
      (fuel max_ttl ttl : ℕ) (p s : P) (buf : Bytes)
      → ttl ≤ max_ttl
      → Steps p buf (length buf) s
      → parse_data ops (suc fuel) max_ttl p buf ttl false ≡ some (took s (ttl + 1) (length buf))
  parse_data-last fuel max_ttl ttl p s buf alive steps =
      parse_data-returns fuel max_ttl ttl p buf (took s (ttl + 1) (length buf)) alive (
        steps (ttl + 1)
        ∙ ap (λ returns. some (returns, took s (ttl + 1) (length buf))) (same_test (length buf)))

  -- What stands behind the bytes that are taken goes to the next call.
  pub parse_data-more :
      (fuel max_ttl ttl n k : ℕ) (p s t : P) (buf : Bytes) (ttl' : ℕ) (finished : Bool)
      → ttl ≤ max_ttl
      → Steps p buf n s
      → n + k ≤ length buf
      → 0 < k
      → length buf < u64_mod
      → parse_data ops fuel max_ttl s (drop n buf) (ttl + 1) false ≡ some (ended finished t ttl' k)
      → parse_data ops (suc fuel) max_ttl p buf ttl false ≡ some (ended finished t ttl' (n + k))
  unfolding parse_data go_on
  parse_data-more fuel max_ttl ttl n k p s t buf ttl' finished alive steps within more small rest =
      rw
        (
          le→ltb-false max_ttl ttl alive,
          steps (ttl + 1),
          rest,
          differ_test n (length buf) (omega arith),
          le→ltb-false (length buf) n (omega arith),
          add64-eq k n (omega arith),
        )
        (ap (λ j. some (ended finished t ttl' j)) {x = k + n} {y = n + k} (omega arith))

  -- The same, by what stands behind the bytes that are taken.
  pub parse_data-rest :
      (fuel max_ttl ttl n k : ℕ) (p s t : P) (buf rest : Bytes) (ttl' : ℕ) (finished : Bool)
      → ttl ≤ max_ttl
      → Steps p buf n s
      → drop n buf ≡ rest
      → n + k ≤ length buf
      → 0 < k
      → length buf < u64_mod
      → parse_data ops fuel max_ttl s rest (ttl + 1) false ≡ some (ended finished t ttl' k)
      → parse_data ops (suc fuel) max_ttl p buf ttl false ≡ some (ended finished t ttl' (n + k))
  parse_data-rest fuel max_ttl ttl n k p s t buf rest ttl' finished alive steps left within more
        small next =
      parse_data-more fuel max_ttl ttl n k p s t buf ttl' finished alive steps within more small
        (ap (λ b. parse_data ops fuel max_ttl s b (ttl + 1) false) left ∙ next)

  -- write, by what parseData answers.
  pub write-ended :
      (max_ttl n k : ℕ) (finished : Bool) (buf : Bytes) (p s : P)
      → n < u64_mod
      → parse_data ops (max_ttl + 2) max_ttl p buf 0 false ≡ some (ended finished s k n)
      → write ops max_ttl buf p
        ≡ some (record { succeed = true; finish = finished; bytes_written = n }, s)
  unfolding write add_status
  write-ended max_ttl n k finished buf p s small e =
      rw (e, write)
        (ap (λ total. some (record { succeed = true; finish = finished; bytes_written = total }, s))
          (add64-eq 0 n (omega arith) ∙ omega arith))

  pub write-last :
      (max_ttl : ℕ) (buf : Bytes) (p s : P)
      → Stays p buf (length buf) s
      → length buf < u64_mod
      → write ops max_ttl buf p ≡ some (wrote (length buf), s)
  write-last max_ttl buf p s m small =
      write-ended max_ttl (length buf) (0 + 1) false buf p s small (
        ap (λ fuel. parse_data ops fuel max_ttl p buf 0 false) {x = max_ttl + 2}
          {y = suc (max_ttl + 1)} (omega arith)
        ∙ parse_data-last (max_ttl + 1) max_ttl 0 p s buf (omega arith)
            (Stays-Steps p s buf (length buf) m))

  pub write-end :
      (max_ttl n : ℕ) (buf : Bytes) (p s : P)
      → Ends p buf n s
      → n < u64_mod
      → write ops max_ttl buf p
        ≡ some (record { succeed = true; finish = true; bytes_written = n }, s)
  write-end max_ttl n buf p s m small = write-ended max_ttl n (0 + 1) true buf p s small (
      ap (λ fuel. parse_data ops fuel max_ttl p buf 0 false) {x = max_ttl + 2}
        {y = suc (max_ttl + 1)} (omega arith)
      ∙ parse_data-end (max_ttl + 1) max_ttl 0 n p s buf (omega arith) m)
