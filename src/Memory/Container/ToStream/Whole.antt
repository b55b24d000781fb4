-- ===== src/Memory/Container/ToStream/Whole.antt =====
-- appendTo inside of a container: it is copyTo2 of the bytes asked for.
use lib_mantids.Common.{
  ℕ, ◌+◌, ◌≤◌, ◌<◌, ◌≡◌, false, Option, some, arith, Outcome, u64_mod, u64_max, overflow-none, ◌==◌,
  le→ltb-false,
}
use lib_mantids.Memory.Container.{ContainerOps, Container, asked}
use lib_mantids.Memory.Container.ToStream.{append_to}

pub asked_part :
    {C : Type 0} (ops : ContainerOps C) (b : Container C) (n offset : ℕ)
    → n < u64_max
    → offset ≤ ops.size b.object
    → asked ops b n offset ≡ some n
unfolding asked
asked_part ops b n offset h k = ground arith

pub asked_whole :
    {C : Type 0} (ops : ContainerOps C) (b : Container C)
    → asked ops b u64_max 0 ≡ some (ops.size b.object)
unfolding asked
asked_whole ops b = ground arith

pub append_to-within :
    {C S : Type 0} (ops : ContainerOps C) (copy : C → ℕ → ℕ → S → Option (Outcome × S))
    (b : Container C) (bytes offset n : ℕ) (s : S)
    → asked ops b bytes offset ≡ some n
    → 0 < n
    → offset + n ≤ ops.size b.object
    → ops.size b.object < u64_mod
    → append_to ops copy b bytes offset s ≡ copy b.object n offset s
unfolding append_to
append_to-within ops copy b bytes offset n s e pos fits bound =
    let more : (n == 0) ≡ false = ground arith in
    rw (
      e,
      append_to,
      overflow-none offset n (omega arith),
      more,
      le→ltb-false (ops.size b.object) offset (omega arith),
      le→ltb-false (ops.size b.object) (offset + n) fits,
    )
