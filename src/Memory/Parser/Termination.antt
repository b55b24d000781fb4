-- ===== src/Memory/Parser/Termination.antt =====
-- parseData ends within its time to live, and a success accounts for all of the data.
use lib_mantids.Common.{
  ℕ, zero, suc, ◌+◌, ◌-◌, ◌≤◌, ◌<◌, ◌≡◌, refl, sym, ap, ◌∙◌, ◌⊎◌, inl, inr, Bool, true, false, not,
  ◌||◌, some, arith, Bytes, Outcome, u64_mod, add64, ◌==◌, Bool-cases, le→ltb-false, lt→ltb,
  lt_or_le, length, drop, length-drop,
}
use lib_mantids.Memory.Subparser.{ParseStatus, stat_error, get_more_data, goto_next_subparser}
use lib_mantids.Memory.Parser.{ParserOps, Parsed, go_on, after_write, parse_step, parse_data}

-- While `Inv` holds, a subparser that is given bytes returns and takes no more of them than there are,
-- and `Inv` holds again where it asks for more, or else of the next subparser.
pub record IsFair {P : Type 0} (ops : ParserOps P) (Inv : P → Type 0) : Type 0 where
  pub answers :
      (p : P) (buf : Bytes)
      → Inv p
      → ops.has_parser p ≡ true
      → 0 < length buf
      → (r : P × Outcome) × (ops.write_into_parser p buf ≡ some r)
        × (r.1.1 ≤ length buf)
        × (ops.get_parse_status r.0 ≡ get_more_data → Inv r.0)
        × (ops.get_parse_status r.0 ≡ goto_next_subparser → Inv (ops.change_to_next_parser r.0).0)

-- A call over `count` bytes has failed, has finished the protocol, or has taken all of them.
unfoldable pub Settled : {P : Type 0} → ℕ → Parsed P → Type 0
Settled count r = (r.outcome.0 ≡ false) ⊎ ((r.finished ≡ true) ⊎ (r.outcome.1 ≡ count))

-- The same as a test.
is_accounted : {P : Type 0} → ℕ → Parsed P → Bool
is_accounted count r = not r.outcome.0 || (r.finished || r.outcome.1 == count)

is_accounted-Settled :
    {P : Type 0} (count : ℕ) (r : Parsed P) → is_accounted count r ≡ true → Settled count r
unfolding is_accounted Settled
is_accounted-Settled count r e = ground arith

module _ {P : Type 0} (ops : ParserOps P) (Inv : P → Type 0) where
  accounted_failed :
      (count ttl : ℕ) (p : P) (finished : Bool)
      → is_accounted count
          (record { state = p; ttl = ttl; finished = finished; outcome = (false, 0) })
        ≡ true
  unfolding is_accounted
  accounted_failed count ttl p finished = refl

  after_write_bound :
      (q : P) (written : Outcome) (count ttl : ℕ) (finished : Bool)
      → written.1 ≤ count
      → ((after_write ops q written count ttl finished).1.ttl ≡ ttl)
        × ((after_write ops q written count ttl finished).1.outcome.1 ≤ count)
        × ((not (after_write ops q written count ttl finished).0
              || is_accounted count (after_write ops q written count ttl finished).1)
            ≡ true)
  unfolding after_write is_accounted
  after_write_bound q written count ttl finished le = ground arith

  after_write_moves :
      (q : P) (written : Outcome) (count ttl : ℕ) (finished : Bool) (status : ParseStatus)
      → ops.get_parse_status q ≡ status
      → (status ≡ get_more_data → Inv q)
      → (status ≡ goto_next_subparser → Inv (ops.change_to_next_parser q).0)
      → written.0 ≡ true
      → (after_write ops q written count ttl finished).0 ≡ false
      → Inv (after_write ops q written count ttl finished).1.state
  unfolding after_write
  after_write_moves q written count ttl finished stat_error e more moves done h =
      absurd (ground (arith, e, done, h))
  after_write_moves q written count ttl finished get_more_data e more moves done h =
      rw (done, e) (more refl)
  after_write_moves q written count ttl finished goto_next_subparser e more moves done h =
      elim (Bool-cases (ops.change_to_next_parser q).1) [
        | inl next ↦ rw (done, e, next) (moves refl)
        | inr none_next ↦ absurd (ground (arith, e, done, none_next, h))
      ]

  -- A step that does not return leaves a state in which the next one can be made, and bytes for it.
  after_write_goes_on :
      (q : P) (written : Outcome) (count ttl : ℕ) (finished : Bool)
      → written.1 ≤ count
      → (ops.get_parse_status q ≡ get_more_data → Inv q)
      → (ops.get_parse_status q ≡ goto_next_subparser → Inv (ops.change_to_next_parser q).0)
      → (after_write ops q written count ttl finished).0 ≡ false
      → Inv (after_write ops q written count ttl finished).1.state
        × ((after_write ops q written count ttl finished).1.outcome.1 < count)
  unfolding after_write
  after_write_goes_on q written count ttl finished le more moves h = elim (Bool-cases written.0) [
    | inl done ↦ (
      after_write_moves q written count ttl finished (ops.get_parse_status q) refl more moves done
          h,
      ground arith,
    )
    | inr failed ↦ absurd (ground (arith, failed, h))
  ]

  -- A step counts one call, and reports no more bytes than there are.
  parse_step-answers :
      IsFair ops Inv
      → (p : P) (buf : Bytes) (ttl : ℕ) (finished : Bool) → Inv p
      → 0 < length buf
      → (r : Bool × Parsed P) × (parse_step ops p buf ttl finished ≡ some r)
        × (r.1.ttl ≡ ttl)
        × (r.1.outcome.1 ≤ length buf)
        × ((not r.0 || is_accounted (length buf) r.1) ≡ true)
        × (r.0 ≡ false → Inv r.1.state × (r.1.outcome.1 < length buf))
  unfolding parse_step
  parse_step-answers fair p buf ttl finished inv pos = elim (Bool-cases (ops.has_parser p)) [
    | inr without ↦ (
      (false, record { state = p; ttl = ttl; finished = finished; outcome = (false, 0) }),
      rw (without),
      refl,
      omega arith,
      refl,
      λ h. (inv, pos),
    )
    | inl current ↦
        let (r, e, le, more, moves) = fair.answers p buf inv current pos in
        let (same, below, ended) = after_write_bound r.0 r.1 (length buf) ttl finished le in
        (
          after_write ops r.0 r.1 (length buf) ttl finished,
          rw (current, e),
          same,
          below,
          ended,
          after_write_goes_on r.0 r.1 (length buf) ttl finished le more moves,
        )
  ]

  go_on-answers :
      (buf : Bytes) (r x : Parsed P)
      → length buf < u64_mod
      → r.outcome.1 ≤ length buf
      → is_accounted (length buf - r.outcome.1) x ≡ true
      → (y : Parsed P) × (go_on buf r (some x) ≡ some y) × (is_accounted (length buf) y ≡ true)
  unfolding go_on is_accounted
  go_on-answers buf r x small le ended = elim (Bool-cases (r.outcome.1 == length buf)) [
    | inl e ↦ (r, rw (e), ground (arith, e))
    | inr n ↦ elim (Bool-cases x.outcome.0) [
      | inr failed ↦
          (x, rw (n, le→ltb-false (length buf) r.outcome.1 le, failed), ground (arith, failed))
      | inl done ↦ (
        record x { outcome = (true, add64 x.outcome.1 r.outcome.1) },
        rw (n, le→ltb-false (length buf) r.outcome.1 le, done),
        ground (arith, done, ended),
      )
    ]
  ]

  -- parseData returns, its calls being bounded by the time to live, and a success that does not finish
  -- the protocol has taken all of the data.
  parse_data-settles :
      IsFair ops Inv
      → (fuel max_ttl : ℕ) (p : P) (buf : Bytes) (ttl : ℕ) (finished : Bool) → Inv p
      → 0 < length buf
      → max_ttl + 2 ≤ fuel + ttl
      → 0 < fuel
      → length buf < u64_mod
      → (r : Parsed P) × (parse_data ops fuel max_ttl p buf ttl finished ≡ some r)
        × (is_accounted (length buf) r ≡ true)
  unfolding parse_data
  parse_data-settles fair zero max_ttl p buf ttl finished inv more enough pos small =
      absurd (omega arith)
  parse_data-settles fair (suc fuel) max_ttl p buf ttl finished inv more enough pos small =
      elim (lt_or_le max_ttl ttl) [
        | inl over ↦ (
          record { state = p; ttl = ttl; finished = finished; outcome = (false, 0) },
          rw (lt→ltb max_ttl ttl over),
          accounted_failed (length buf) ttl p finished,
        )
        | inr within ↦
            let ((returns, r), e, same, below, ended, goes_on) =
              parse_step-answers fair p buf (ttl + 1) finished inv more in
            elim (Bool-cases returns) [
              | inl stop ↦ (
                r,
                rw (le→ltb-false max_ttl ttl within, e, stop),
                ap (λ t. not t || is_accounted (length buf) r) (sym stop) ∙ ended,
              )
              | inr on ↦
                  let left = length-drop r.outcome.1 buf in
                  let (next_inv, fewer) = goes_on on in
                  let (x, answered, settles) =
                    parse_data-settles fair fuel max_ttl r.state (drop r.outcome.1 buf) r.ttl
                      r.finished next_inv (omega arith) (omega arith) (omega arith) (omega arith) in
                  let (y, goes, settles') =
                    go_on-answers buf r x small below
                      (ap (λ n. is_accounted n x) (sym left) ∙ settles) in
                  (y, rw (le→ltb-false max_ttl ttl within, e, on, answered, goes), settles')
            ]
      ]

  -- parseData over one byte or more, and less than 2 ^ 64, returns, in the fuel that write gives,
  -- and has failed, has finished the protocol, or has taken all of the data, from every state in
  -- which an invariant holds under which the subparsers are fair: given bytes, they return and take
  -- no more than there are, and the invariant holds again for the subparser that goes on.
  pub parse_data-Settled :
      IsFair ops Inv
      → (max_ttl : ℕ) (p : P) (buf : Bytes) (finished : Bool) → Inv p
      → 0 < length buf
      → length buf < u64_mod
      → (r : Parsed P) × (parse_data ops (max_ttl + 2) max_ttl p buf 0 finished ≡ some r)
        × Settled (length buf) r
  parse_data-Settled fair max_ttl p buf finished inv more small =
      let (r, e, settles) =
        parse_data-settles fair (max_ttl + 2) max_ttl p buf 0 finished inv more (omega arith)
          (omega arith) small in
      (r, e, is_accounted-Settled (length buf) r settles)
