-- ===== src/Memory/Parser.antt =====
-- Memory/mdz_mem_vars/parser.cpp: a protocol parser hands the bytes that come in to its current
-- subparser, until all are taken. The state of a parser, of its subparsers and of all that stands
-- behind them is a `P`.
pub mod Termination
pub mod Steps
use lib_mantids.Common.{
  ℕ, zero, suc, ◌+◌, Bool, true, false, not, ◌||◌, Option, none, some, Bytes, Outcome, add64, ltb,
  ◌==◌, if◌then◌else◌, length, drop,
}
use lib_mantids.Memory.Streams.{Written, wrote, new_status, add_status}
use lib_mantids.Memory.Subparser.{ParseStatus, stat_error, get_more_data, goto_next_subparser}

-- What parseData calls: whether currentParser is not null, its writeIntoParser after its status is set
-- to PARSE_STAT_GET_MORE_DATA (none is a call that does not return), the status it leaves, and the
-- virtual changeToNextParser.
pub record ParserOps (P : Type 0) : Type 0 where
  pub has_parser : P → Bool
  pub write_into_parser : P → Bytes → Option (P × Outcome)
  pub get_parse_status : P → ParseStatus
  pub change_to_next_parser : P → P × Bool

-- The state, `ttl` and `finished` at the end of parseData, and what it returns.
pub record Parsed (P : Type 0) : Type 0 where
  pub state : P
  pub ttl : ℕ
  pub finished : Bool
  pub outcome : Outcome

-- What stands behind the switch on the status: the data left goes to the next call. none is a count
-- past the end of the data.
unfoldable pub go_on : {P : Type 0} → Bytes → Parsed P → Option (Parsed P) → Option (Parsed P)
go_on buf r rest =
    if r.outcome.1 == length buf
    then some r
    else if ltb (length buf) r.outcome.1
    then none
    else elim rest [
      | none ↦ none
      | some x ↦
          some (
            if x.outcome.0 then record x { outcome = (true, add64 x.outcome.1 r.outcome.1) } else x)
    ]

module _ {P : Type 0} (ops : ParserOps P) where
  -- parseData from the test of writtenBytes on, up to the data left: whether it returns, and what.
  unfoldable pub after_write : P → Outcome → ℕ → ℕ → Bool → Bool × Parsed P
  after_write q written count ttl finished =
      let at : P → Bool → Outcome → Parsed P = λ state end outcome. record {
        state = state;
        ttl = ttl;
        finished = end;
        outcome = outcome;
      } in
      let next = ops.change_to_next_parser q in
      let end = not (ops.has_parser next.0) in
      let all = written.1 == count in
      if not written.0 then (true, at q finished (false, 0)) else elim (ops.get_parse_status q) [
        | goto_next_subparser ↦
            if not next.1
            then (true, at next.0 finished (false, 0))
            else (end || all, at next.0 (finished || end) written)
        | get_more_data ↦ (all, at q finished written)
        | stat_error ↦ (true, at q finished (false, 0))
      ]

  -- The part of parseData before the data left. Without a subparser nothing is written.
  unfoldable pub parse_step : P → Bytes → ℕ → Bool → Option (Bool × Parsed P)
  unfolding after_write
  parse_step p buf ttl finished =
      if not (ops.has_parser p)
      then some (false, record { state = p; ttl = ttl; finished = finished; outcome = (false, 0) })
      else elim (ops.write_into_parser p buf) [
        | none ↦ none
        | some (q, written) ↦ some (after_write q written (length buf) ttl finished)
      ]

  -- parseData: a call more is made only up to maxTTL, so `max_ttl + 2 - ttl` is fuel enough.
  unfoldable pub parse_data : ℕ → ℕ → P → Bytes → ℕ → Bool → Option (Parsed P)
  parse_data zero max_ttl p buf ttl finished = none
  parse_data (suc fuel) max_ttl p buf ttl finished =
      let step = parse_step p buf (ttl + 1) finished in
      if ltb max_ttl ttl
      then some (record { state = p; ttl = ttl; finished = finished; outcome = (false, 0) })
      else elim step [
        | none ↦ none
        | some (returns, r) ↦
            let rest = parse_data fuel max_ttl r.state (drop r.outcome.1 buf) r.ttl r.finished in
            if returns then some r else go_on buf r rest
      ]

  -- write, for a parser with the limit maxTTL.
  unfoldable pub write : ℕ → Bytes → P → Written P
  unfolding parse_data add_status
  write max_ttl buf p = elim (parse_data (max_ttl + 2) max_ttl p buf 0 false) [
    | none ↦ none
    | some r ↦
        let ret = record new_status { finish = r.finished } in
        some (
          if not r.outcome.0
              then record ret { succeed = false }
              else add_status ret (wrote r.outcome.1),
          r.state,
        )
  ]
