-- ===== src/Protocols/CountedContent.antt =====
-- HTTPv1_Client and Content put together, where the headers give the length of the content: the bytes
-- come in calls of write, with a B_Chunks as the buffer of the content and a text as outStream.
use mathlib.Core.Path.{subst}
use lib_mantids.Common.{
  inr, sym, ℕ, ◌+◌, ◌-◌, ◌*◌, ◌≤◌, ◌<◌, ◌≡◌, refl, ap, ◌∙◌, true, false, Option, some, List, [],
  ◌++◌, arith, Bytes, Outcome, le→ltb-false, length,
}
use lib_mantids.Memory.Streams.{streamable_string}
use lib_mantids.Memory.Chunks.{FsOps, BChunks}
use lib_mantids.Memory.Chunks
use lib_mantids.Memory.Chunks.AsContainer.{chunks_ops, view, chunks_stop}
use lib_mantids.Memory.Chunks.AsBuffer.{IsFresh, chunks-IsBuffer, new-IsFresh}
use lib_mantids.Memory.Chunks.ToStream.{copy_to2}
use lib_mantids.Memory.Chunks.ToStream.Handing.{joined}
use lib_mantids.Memory.Chunks.ToText.{chunks-Hands}
use lib_mantids.Memory.Subparser.{set_parse_mode}
use lib_mantids.Memory.Subparser.Lines.{positive}
use lib_mantids.Memory.Parser.{write}
use lib_mantids.Protocols.Chunked.Framed.{AllChunks}
use lib_mantids.Protocols.Chunked.Sending.{total}
use lib_mantids.Protocols.ChunkedCodec.{no_eof, add_text, put_all-joined, headed}
use lib_mantids.Protocols.Content.{
  ContentParser, Receiver, transmit_connection_close, transmit_content_length, set_transmition_mode,
  set_parse_data_target_size, set_content_len_size, parse_headers2_transmition_mode, content_ops,
}
use lib_mantids.Protocols.Content
use lib_mantids.Protocols.Content.Fair.{IsRunning}
use lib_mantids.Protocols.Content.Pieces.{write_all, IsExpecting, write_all-parts, write-rest}

-- The content once its mode of transmission is set.
abbrev opened : {F : Type 0} → ContentParser (BChunks F) Bytes
opened = set_transmition_mode transmit_content_length (
    set_transmition_mode transmit_connection_close
      (Content.new (record { read_only = false; max_size = 0; object = Chunks.new }) []))

abbrev counted : {F : Type 0} → ℕ → Receiver (BChunks F) Bytes
counted {F} n =
    let p : ContentParser (BChunks F) Bytes = opened in
    record {
      content =
          set_parse_data_target_size n
            (record p { object = record p.object { current_content_length_size = n } });
      current = true;
    }

headed-counted :
    {F : Type 0}
    → (n : ℕ) → 0 < n
    → n ≤ 17 * 1024 * 1024
    → headed {F = F} (some n) false ≡ counted n
unfolding headed parse_headers2_transmition_mode set_content_len_size set_transmition_mode
    Content.new
headed-counted n more small = rw (positive n more, le→ltb-false (17 * 1024 * 1024) n small)

module _ {F : Type 0} (fs : FsOps F)
    (file_append_to : F → ℕ → ℕ → Bytes → Option (Outcome × Bytes)) where
  counted-IsExpecting :
      (n : ℕ)
      → IsExpecting
          (chunks_ops fs)
          view
          IsFresh
          chunks_stop
          65536
          (chunks-IsBuffer fs)
          (copy_to2 fs file_append_to streamable_string)
          no_eof
          add_text
          (chunks-Hands fs file_append_to)
          n
          []
          (counted n)
  unfolding set_transmition_mode set_parse_mode Content.new Chunks.new
  counted-IsExpecting n = record {
    counting = record {
      waiting = record { inside = new-IsFresh; empty = refl; writable = refl; limit = refl };
      gathers = refl;
      awaits = refl;
      sends = refl;
    };
    current = refl;
  }

  -- Such a client can go on to parse, where its buffer can hold the content at once.
  pub headed-IsRunning :
      (n : ℕ)
      → 0 < n
      → n ≤ 65536
      → IsRunning
          (chunks_ops fs)
          view
          IsFresh
          chunks_stop
          65536
          (chunks-IsBuffer fs)
          (copy_to2 fs file_append_to streamable_string)
          no_eof
          add_text
          (chunks-Hands fs file_append_to)
          (headed (some n) false)
  headed-IsRunning n more fits =
      subst
        (IsRunning (chunks_ops fs) view IsFresh chunks_stop 65536 (chunks-IsBuffer fs)
          (copy_to2 fs file_append_to streamable_string) no_eof add_text
          (chunks-Hands fs file_append_to))
        (sym (headed-counted n more (omega arith))) (inr (n, [], more, fits, counted-IsExpecting n))

  -- A client that has read the length of a content, up to 17 MB, receives it in pieces that are not
  -- empty and have 64 KB at most, each in a call of write, the last with any bytes behind it: all calls
  -- return, the last one reports that the parser has finished and that it has taken its piece alone,
  -- and outStream holds the pieces one behind the other.
  pub receive-length :
      (cs : List Bytes) (c rest : Bytes) (max_ttl : ℕ)
      → AllChunks 65536 cs
      → 0 < length c
      → length c ≤ 65536
      → total cs + length c ≤ 17 * 1024 * 1024
      → let ops =
          content_ops (chunks_ops fs) (copy_to2 fs file_append_to streamable_string) no_eof in
        (before after : Receiver (BChunks F) Bytes) × (write_all ops max_ttl cs
            (headed (some (total cs + length c)) false)
          ≡ some before)
        × (write ops max_ttl (c ++ rest) before
            ≡ some (record { succeed = true; finish = true; bytes_written = length c }, after))
        × (after.content.object.out ≡ some (joined cs ++ c))
  receive-length cs c rest max_ttl all more fits small =
      let n = total cs + length c in
      let ops = content_ops (chunks_ops fs) (copy_to2 fs file_append_to streamable_string) no_eof in
      let (before, parts, expecting) =
        write_all-parts (chunks_ops fs) view IsFresh chunks_stop 65536 (chunks-IsBuffer fs)
          (copy_to2 fs file_append_to streamable_string) no_eof add_text
          (chunks-Hands fs file_append_to) n max_ttl [] (counted n) cs (counted-IsExpecting n) all
          (omega arith) in
      let (after, last, told) =
        write-rest (chunks_ops fs) view IsFresh chunks_stop 65536 (chunks-IsBuffer fs)
          (copy_to2 fs file_append_to streamable_string) no_eof add_text
          (chunks-Hands fs file_append_to) (n - total cs) max_ttl _ before c rest expecting more
          fits (omega arith) in
      (
        before,
        after,
        ap (write_all ops max_ttl cs) (headed-counted n (omega arith) small) ∙ parts,
        last,
        told ∙ ap (λ text. some (text ++ c)) (put_all-joined cs []),
      )
