-- ===== src/Memory/Chunks/ToText.antt =====
-- copyTo2 of a fresh B_Chunks into a StreamableString.
use lib_mantids.Common.{
  ℕ, ap, ◌∙◌, true, Option, some, append-nil, append_assoc, sym, ◌++◌, arith, Bytes, Outcome, drop,
  length-take, length-drop,
}
use lib_mantids.Memory.Streams.{streamable_string}
use lib_mantids.Memory.Streams.Text.{Anything, appends}
use lib_mantids.Memory.Ref.Handing.{Hands}
use lib_mantids.Memory.Chunks.{FsOps}
use lib_mantids.Memory.Chunks.AsContainer.{chunks_ops, view}
use lib_mantids.Memory.Chunks.AsBuffer.{IsFresh, chunks-IsBuffer}
use lib_mantids.Memory.Chunks.ToStream.{copy_to2}
use lib_mantids.Memory.Chunks.ToStream.Handing.{copy_to2-Handed}

-- The bytes asked for are added at the end of the text.
pub chunks-Hands :
    {F : Type 0} (fs : FsOps F) (file_append_to : F → ℕ → ℕ → Bytes → Option (Outcome × Bytes))
    → Hands
        (chunks_ops fs)
        view
        IsFresh
        (chunks-IsBuffer fs).readable
        (copy_to2 fs file_append_to streamable_string)
        (λ xs value. value ++ xs)
chunks-Hands fs file_append_to b n offset value fresh pos fits =
    let t =
      copy_to2-Handed streamable_string (λ v. v) ◌++◌ Anything append-nil
        (λ a xs ys. sym (append_assoc a xs ys)) appends fs file_append_to b n offset value
        fresh.sound.0 fits tt in
    t.returns
    ∙ ap (λ k. some ((true, k), t.after))
        (omega (arith, length-take n (drop offset (view b)), length-drop offset (view b)))
    ∙ ap (λ v. some ((true, n), v)) t.carried
