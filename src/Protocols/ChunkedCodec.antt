-- ===== src/Protocols/ChunkedCodec.antt =====
-- Content_Chunked_SubParser and Content put together: what the one has written, the other reads, with a
-- B_Chunks as the buffer of the content and texts as the streams on both sides.
use lib_mantids.Common.{
  ℕ, ◌+◌, ◌-◌, ◌*◌, ◌≤◌, ◌<◌, ◌≡◌, refl, sym, ap, ◌∙◌, Bool, true, false, Option, none, some, List,
  [], ◌∷◌, ◌++◌, append-nil, append_assoc, arith, Bytes, Outcome, u64_mod, length,
}
use lib_mantids.Memory.Streams.{streamable_string}
use lib_mantids.Memory.Streams.Text.{Anything, appends}
use lib_mantids.Memory.Chunks.{FsOps, BChunks}
use lib_mantids.Memory.Chunks
use lib_mantids.Memory.Chunks.AsContainer.{chunks_ops, view, chunks_stop}
use lib_mantids.Memory.Chunks.AsBuffer.{IsFresh, chunks-IsBuffer, new-IsFresh}
use lib_mantids.Memory.Chunks.ToStream.{copy_to2}
use lib_mantids.Memory.Chunks.ToStream.Handing.{joined}
use lib_mantids.Memory.Chunks.ToText.{chunks-Hands}
use lib_mantids.Memory.Parser.{parse_data}
use lib_mantids.Memory.Parser.Steps.{ended}
use lib_mantids.Protocols.Chunked.{ChunkedWriter, crlf}
use lib_mantids.Protocols.Chunked
use lib_mantids.Protocols.Chunked.Framed.{body, framed-body, AllChunks}
use lib_mantids.Protocols.Chunked.Sending.{send, send-framed, total}
use lib_mantids.Protocols.Content.{
  ContentParser, Receiver, parse_headers2_transmition_mode, content_ops,
}
use lib_mantids.Protocols.Content
use lib_mantids.Protocols.Content.Rounds.{IsReceiving}
use lib_mantids.Protocols.Content.Transfer.{put_all, length-body, receives}

-- A StreamableString has the writeEOF of StreamableObject, which does nothing.
abbrev pub no_eof : Bool → Bytes → Option Bytes
no_eof succeed value = some value

abbrev pub add_text : Bytes → Bytes → Bytes
add_text xs value = value ++ xs

pub put_all-joined :
    (cs : List Bytes) (value : Bytes) → put_all add_text cs value ≡ value ++ joined cs
put_all-joined [] value = sym (append-nil value)
put_all-joined (c ∷ cs) value = put_all-joined cs (value ++ c) ∙ append_assoc value c (joined cs)

-- A client that has read the headers of a response: their length, and whether they ask for chunks.
unfoldable pub headed : {F : Type 0} → Option ℕ → Bool → Receiver (BChunks F) Bytes
unfolding parse_headers2_transmition_mode Content.new Chunks.new
headed announced chunked =
    let fresh = Content.new (record { read_only = false; max_size = 0; object = Chunks.new }) [] in
    let (content, current) = parse_headers2_transmition_mode announced chunked fresh in
    record { content = content; current = current }

abbrev pub start : {F : Type 0} → Receiver (BChunks F) Bytes
start = headed none true

module _ {F : Type 0} (fs : FsOps F)
    (file_append_to : F → ℕ → ℕ → Bytes → Option (Outcome × Bytes)) where
  pub start-IsReceiving :
      IsReceiving
        (chunks_ops fs)
        view
        IsFresh
        chunks_stop
        65536
        (chunks-IsBuffer fs)
        (copy_to2 fs file_append_to streamable_string)
        no_eof
        add_text
        (chunks-Hands fs file_append_to)
        16777216
        64
        []
        start
  unfolding headed
  start-IsReceiving = record {
    at = record {
      waiting = record { inside = new-IsFresh; empty = refl; writable = refl; limit = refl };
      gathers = refl;
      delimiter = refl;
      awaits = refl;
      sends = refl;
      allows = refl;
    };
    current = refl;
    wide = omega arith;
    fits = omega arith;
    roomy = omega arith;
  }

  -- A client reads what the writer has written of pieces that are not empty and have 64 KB at most, as
  -- many as the time to live of its parser lets come in at once: both return, outStream holds the
  -- pieces one behind the other and is told that it ends, the parser has finished, and it has taken
  -- all of the text but the last two bytes.
  pub send-receive :
      (cs : List Bytes) (max_ttl : ℕ)
      → AllChunks 65536 cs
      → 3 * length cs ≤ max_ttl
      → total cs + 64 < u64_mod
      → length (body cs crlf) < u64_mod
      → (sent : ChunkedWriter Bytes) × (after : Receiver (BChunks F) Bytes) × (send
            streamable_string cs
            (Chunked.new [])
          ≡ some (true, sent))
        × (parse_data
              (content_ops (chunks_ops fs) (copy_to2 fs file_append_to streamable_string) no_eof)
              (max_ttl + 2)
              max_ttl
              start
              sent.dst
              0
              false
            ≡ some (ended true after (3 * length cs + 1) (length sent.dst - 2)))
        × (after.content.object.out ≡ some (joined cs))
  send-receive cs max_ttl all alive some_bytes bound =
      let (sent, sends, carried) =
        send-framed streamable_string (λ v. v) ◌++◌ Anything append-nil
          (λ a xs ys. sym (append_assoc a xs ys)) appends cs (Chunked.new []) (omega arith) tt in
      let written : sent.dst ≡ body cs crlf = carried ∙ framed-body 65536 cs (omega arith) all in
      let e =
        receives (chunks_ops fs) view IsFresh chunks_stop 65536 (chunks-IsBuffer fs)
          (copy_to2 fs file_append_to streamable_string) no_eof add_text
          (chunks-Hands fs file_append_to) 16777216 64 65536 max_ttl cs crlf [] start (max_ttl + 2)
          0 start-IsReceiving (omega arith) (omega arith) (omega arith) all (omega arith)
          (omega arith) bound in
      (
        sent,
        e.after,
        sends,
        ap
              (λ text.
                parse_data
                  (content_ops (chunks_ops fs) (copy_to2 fs file_append_to streamable_string)
                    no_eof)
                  (max_ttl + 2) max_ttl start text 0 false)
              written
            ∙ e.returns
            ∙ ap (λ j. some (ended true e.after j (length (body cs []))))
                {x = 0 + (3 * length cs + 1)} {y = 3 * length cs + 1} (omega arith)
            ∙ ap (λ j. some (ended true e.after (3 * length cs + 1) j))
                (omega (arith, length-body cs crlf, ap length written)),
        e.told ∙ ap some (put_all-joined cs []),
      )
