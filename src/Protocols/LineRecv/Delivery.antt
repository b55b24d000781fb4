-- ===== src/Protocols/LineRecv/Delivery.antt =====
-- The lines that come in are handed to processParsedLine, one after the other.
use mathlib.Core.Path.{subst}
use lib_mantids.Common.{
  ℕ, zero, suc, ◌+◌, ◌-◌, ◌≤◌, ◌<◌, ◌≡◌, refl, ap, ◌∙◌, Bool, true, false, none, some, List, [],
  ◌∷◌, ◌++◌, arith, Bytes, Outcome, first_index, u64_mod, ◌==◌, length, drop, drop_past,
  length-append,
}
use lib_mantids.Memory.Container.{ContainerOps}
use lib_mantids.Memory.Subparser.{SubParser, get_more_data, write_into_parser}
use lib_mantids.Memory.Subparser.Lines.{IsBuffer}
use lib_mantids.Memory.Parser.{parse_data}
use lib_mantids.Memory.Parser.Steps.{
  took, Steps, Moves, Moves-Steps, parse_data-last, parse_data-more,
}
use lib_mantids.Protocols.LineRecv.{LineRecv, parse, write_line, change_to_next_parser, line_ops}
use lib_mantids.Protocols.LineRecv.Taking.{IsReady, write_into_parser-TakesLine}

-- The lines, each with a line feed behind it.
unfoldable pub lines_text : List Bytes → Bytes
lines_text [] = []
lines_text (line ∷ lines) = line ++ 10 ∷ lines_text lines

drop_line : (line rest : Bytes) → drop (length line + 1) (line ++ 10 ∷ rest) ≡ rest
drop_line line rest =
    drop_past (length line + 1) line (10 ∷ rest) (omega arith)
    ∙ ap (λ k. drop k (10 ∷ rest)) {x = length line + 1 - length line} {y = 1} (omega arith)

-- Lines without a line feed, shorter than `m` bytes.
abbrev pub AllLines : ℕ → List Bytes → Type 0
AllLines m [] = Unit {0}
AllLines m (line ∷ lines) =
    ((first_index (λ x. x == 10) line ≡ none) × (length line < m)) × AllLines m lines

-- The state of the listener after the lines.
unfoldable pub deliver : {L : Type 0} → (Bytes → L → L × Bool) → List Bytes → L → L
deliver process [] l = l
deliver process (line ∷ lines) l = deliver process lines (process line l).0

module _ {C L : Type 0} (ops : ContainerOps C) (view : C → Bytes) (Inv : C → Type 0)
    (stops : ℕ → ℕ → Bool) (capacity : ℕ) (buffer : IsBuffer ops view Inv stops capacity)
    (process : Bytes → L → L × Bool)
    (goes_on : (line : Bytes) (l : L) → (process line l).1 ≡ true) where
  -- A protocol between two lines.
  pub record IsListening (m : ℕ) (r : LineRecv C L) : Type 0 where
    pub current : r.current ≡ true
    pub ready : IsReady ops view Inv stops capacity buffer m r.subparser

  write_line-eq :
      (r : LineRecv C L) (buf : Bytes) (q : SubParser C Bytes) (o : Outcome)
      → write_into_parser ops (parse ops) (record r.subparser { parse_status = get_more_data }) buf
        ≡ some (q, o)
      → write_line ops process r buf ≡ some (record r { subparser = q }, o)
  unfolding write_line
  write_line-eq r buf q o e = rw (e, write_line)

  change_to_next_parser-eq :
      (r : LineRecv C L) (line : Bytes)
      → r.subparser.object ≡ line
      → change_to_next_parser ops process r
        ≡ (record r { listener = (process line r.listener).0 }, true)
  unfolding change_to_next_parser
  change_to_next_parser-eq r line e = rw (e, change_to_next_parser, goes_on line r.listener)

  -- One call of parseData takes one line.
  pub record StepsLine (m : ℕ) (r : LineRecv C L) (line rest : Bytes) : Type 0 where
    pub after : LineRecv C L
    pub moves : Moves (line_ops ops process) r (line ++ 10 ∷ rest) (length line + 1) after
    pub heard : after.listener ≡ (process line r.listener).0
    pub listening : IsListening m after

  write_into_parser-StepsLine :
      (m : ℕ) (r : LineRecv C L) (line rest : Bytes)
      → IsListening m r
      → m ≤ capacity
      → first_index (λ x. x == 10) line ≡ none
      → length line < m
      → StepsLine m r line rest
  unfolding line_ops
  write_into_parser-StepsLine m r line rest listening fits lacks short =
      let w = listening.ready.waiting in
      let t =
        write_into_parser-TakesLine ops view Inv stops capacity buffer m
          (record r.subparser { parse_status = get_more_data }) line rest
          (record {
            waiting = record {
              inside = w.inside;
              empty = w.empty;
              writable = w.writable;
              limit = w.limit;
            };
            mode = listening.ready.mode;
            delimiters = listening.ready.delimiters;
          })
          fits lacks short in
      record {
        after = record r { subparser = t.after; listener = (process line r.listener).0 };
        moves = record {
          current = listening.current;
          middle = record r { subparser = t.after };
          written = write_line-eq r (line ++ 10 ∷ rest) t.after (true, length line + 1) t.taken;
          status = t.status;
          changed = change_to_next_parser-eq (record r { subparser = t.after }) line t.line_parsed;
          still = listening.current;
        };
        heard = refl;
        listening = record { current = listening.current; ready = t.ready };
      }

  -- Lines that come in together are handed on one after the other, and all of them are taken.
  pub parse_data-deliver :
      (m max_ttl : ℕ) (lines : List Bytes) (line : Bytes) (r : LineRecv C L) (fuel ttl : ℕ)
      → IsListening m r
      → m ≤ capacity
      → AllLines m (line ∷ lines)
      → ttl + length lines ≤ max_ttl
      → length lines < fuel
      → length (lines_text (line ∷ lines)) < u64_mod
      → (s : LineRecv C L) × (parse_data
            (line_ops ops process)
            fuel
            max_ttl
            r
            (lines_text (line ∷ lines))
            ttl
            false
          ≡ some (took s (ttl + length (line ∷ lines)) (length (lines_text (line ∷ lines)))))
        × (s.listener ≡ deliver process (line ∷ lines) r.listener)
        × IsListening m s
  unfolding lines_text deliver
  parse_data-deliver m max_ttl lines line r zero ttl listening fits all alive enough small =
      absurd (omega arith)
  parse_data-deliver m max_ttl [] line r (suc fuel) ttl listening fits ((lacks, short), all) alive
        enough small =
      let t = write_into_parser-StepsLine m r line [] listening fits lacks short in
      let long = length-append line (10 ∷ []) in
      (
        t.after,
        parse_data-last (line_ops ops process) fuel max_ttl ttl r t.after (line ++ 10 ∷ [])
            (omega arith)
            (subst (λ n. Steps (line_ops ops process) r (line ++ 10 ∷ []) n t.after) (omega arith)
              (Moves-Steps (line_ops ops process) r t.after (line ++ 10 ∷ []) (length line + 1)
                t.moves)),
        t.heard,
        t.listening,
      )
  parse_data-deliver m max_ttl (next ∷ lines) line r (suc fuel) ttl listening fits
        ((lacks, short), all) alive enough small =
      let rest = lines_text (next ∷ lines) in
      let t = write_into_parser-StepsLine m r line rest listening fits lacks short in
      let long = length-append line (10 ∷ rest) in
      let (s, parsed_rest, heard, still) =
        parse_data-deliver m max_ttl lines next t.after fuel (ttl + 1) t.listening fits all
          (omega arith) (omega arith) (omega arith) in
      (
        s,
        parse_data-more (line_ops ops process) fuel max_ttl ttl (length line + 1) (length rest) r
              t.after s (line ++ 10 ∷ rest) (ttl + 1 + length (next ∷ lines)) false (omega arith)
              (Moves-Steps (line_ops ops process) r t.after (line ++ 10 ∷ rest) (length line + 1)
                t.moves)
              (omega arith) (omega (arith, length-append next (10 ∷ lines_text lines))) small
              (ap (λ b. parse_data (line_ops ops process) fuel max_ttl t.after b (ttl + 1) false)
                  (drop_line line rest)
                ∙ parsed_rest)
            ∙ ap (λ n. some (took s n (length line + 1 + length rest)))
                {x = ttl + 1 + length (next ∷ lines)} {y = ttl + length (line ∷ next ∷ lines)}
                (omega arith)
            ∙ ap (λ n. some (took s (ttl + length (line ∷ next ∷ lines)) n))
                {x = length line + 1 + length rest} {y = length (line ++ 10 ∷ rest)} (omega arith),
        heard ∙ ap (deliver process (next ∷ lines)) t.heard,
        still,
      )
