-- ===== src/Protocols/Content/Pieces.antt =====
-- The client that receives a content whose length is known, in calls of write one after the other.
use mathlib.Core.Path.{subst}
use lib_mantids.Common.{
  ℕ, ◌-◌, ◌≤◌, ◌<◌, ◌≡◌, refl, Bool, true, false, Option, none, some, List, [], ◌∷◌, ◌++◌, arith,
  Bytes, Outcome, length,
}
use lib_mantids.Memory.Streams.{wrote}
use lib_mantids.Memory.Container.{ContainerOps}
use lib_mantids.Memory.Ref.Handing.{Hands}
use lib_mantids.Memory.Subparser.{get_more_data}
use lib_mantids.Memory.Subparser.Lines.{IsBuffer}
use lib_mantids.Memory.Parser.{ParserOps, write}
use lib_mantids.Memory.Parser.Steps.{write-last, write-end}
use lib_mantids.Protocols.Chunked.Framed.{AllChunks}
use lib_mantids.Protocols.Chunked.Sending.{total}
use lib_mantids.Protocols.Content.{Receiver, content_ops}
use lib_mantids.Protocols.Content.Length.{IsCounting, takes_part, takes_rest}
use lib_mantids.Protocols.Content.Rounds.{stays, ends}
use lib_mantids.Protocols.Content.Transfer.{put_all}

-- The parser after the pieces are written to it, each in a call of its own.
unfoldable pub write_all : {P : Type 0} → ParserOps P → ℕ → List Bytes → P → Option P
write_all ops max_ttl [] p = some p
write_all ops max_ttl (c ∷ cs) p = elim (write ops max_ttl c p) [
  | none ↦ none
  | some (status, p') ↦ write_all ops max_ttl cs p'
]

module _ {C S : Type 0} (ops : ContainerOps C) (view : C → Bytes) (Inv : C → Type 0)
    (stops : ℕ → ℕ → Bool) (capacity : ℕ) (buffer : IsBuffer ops view Inv stops capacity)
    (copy : C → ℕ → ℕ → S → Option (Outcome × S)) (write_eof : Bool → S → Option S)
    (put : Bytes → S → S) (hands : Hands ops view Inv buffer.readable copy put) where
  -- A client of which the content waits for `n` bytes more.
  pub record IsExpecting (n : ℕ) (s : S) (r : Receiver C S) : Type 0 where
    pub counting :
        IsCounting ops view Inv stops capacity buffer copy write_eof put hands n s r.content
    pub current : r.current ≡ true

  pub reset :
      (n : ℕ) (s : S) (r : Receiver C S)
      → IsExpecting n s r
      → IsCounting ops view Inv stops capacity buffer copy write_eof put hands n s
          (record r.content { parse_status = get_more_data })
  reset n s r e = record {
    waiting = record {
      inside = e.counting.waiting.inside;
      empty = e.counting.waiting.empty;
      writable = e.counting.waiting.writable;
      limit = e.counting.waiting.limit;
    };
    gathers = e.counting.gathers;
    awaits = e.counting.awaits;
    sends = e.counting.sends;
  }

  write-part :
      (n max_ttl : ℕ) (s : S) (r : Receiver C S) (buf : Bytes)
      → IsExpecting n s r
      → 0 < length buf
      → length buf ≤ capacity
      → length buf < n
      → (after : Receiver C S) × (write (content_ops ops copy write_eof) max_ttl buf r
          ≡ some (wrote (length buf), after))
        × IsExpecting (n - length buf) (put buf s) after
  write-part n max_ttl s r buf e more fits some_left =
      let bound = buffer.small in
      let (p, written, status, counting) =
        takes_part ops view Inv stops capacity buffer copy write_eof put hands n s
          (record r.content { parse_status = get_more_data }) buf (reset n s r e) more fits
          some_left in
      let parser = content_ops ops copy write_eof in
      let after : Receiver C S = record r { content = p } in
      (
        after,
        write-last parser max_ttl buf r after
            (stays ops view Inv stops capacity buffer copy write_eof put hands r buf (length buf) p
              e.current written status)
            (omega arith),
        record { counting = counting; current = e.current },
      )

  pub write-rest :
      (n max_ttl : ℕ) (s : S) (r : Receiver C S) (buf rest : Bytes)
      → IsExpecting n s r
      → 0 < length buf
      → length buf ≤ capacity
      → length buf ≡ n
      → (after : Receiver C S) × (write (content_ops ops copy write_eof) max_ttl (buf ++ rest) r
          ≡ some (record { succeed = true; finish = true; bytes_written = length buf }, after))
        × (after.content.object.out ≡ write_eof true (put buf s))
  write-rest n max_ttl s r buf rest e more fits all =
      let bound = buffer.small in
      let (p, written, status, told) =
        takes_rest ops view Inv stops capacity buffer copy write_eof put hands n s
          (record r.content { parse_status = get_more_data }) buf rest (reset n s r e) more fits
          all in
      let parser = content_ops ops copy write_eof in
      let after : Receiver C S = record { content = p; current = false } in
      (
        after,
        write-end parser max_ttl (length buf) (buf ++ rest) r after
            (ends ops view Inv stops capacity buffer copy write_eof put hands r (buf ++ rest)
              (length buf) p e.current written status)
            (omega arith),
        told,
      )

  pub write_all-parts :
      (n max_ttl : ℕ) (s : S) (r : Receiver C S) (cs : List Bytes)
      → IsExpecting n s r
      → AllChunks capacity cs
      → total cs < n
      → (after : Receiver C S) × (write_all (content_ops ops copy write_eof) max_ttl cs r
          ≡ some after)
        × IsExpecting (n - total cs) (put_all put cs s) after
  unfolding write_all
  write_all-parts n max_ttl s r [] e all less =
      (r, refl, subst (λ k. IsExpecting k s r) {x = n} {y = n - 0} (omega arith) e)
  write_all-parts n max_ttl s r (c ∷ cs) e ((more, fits), all) less =
      let (next, written, expecting) = write-part n max_ttl s r c e more fits (omega arith) in
      let (after, others, still) =
        write_all-parts (n - length c) max_ttl (put c s) next cs expecting all (omega arith) in
      (
        after,
        rw (written, write_all, others),
        subst (λ k. IsExpecting k (put_all put (c ∷ cs) s) after) {x = n - length c - total cs}
            {y = n - total (c ∷ cs)} (omega arith) still,
      )
