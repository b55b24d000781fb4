-- ===== src/Memory/Container/Guards.antt =====
-- The guards of append, prepend, displace and truncate: a container never grows past its limit, and
-- one that is read only takes no bytes.
use lib_mantids.Common.{
  ℕ, ◌+◌, ◌≤◌, ◌<◌, ◌≡◌, refl, ◌∙◌, Bool, true, false, not, ◌&&◌, List, [], ◌∷◌, arith, Bytes,
  u64_mod, overflow-none, leb, length,
}
use lib_mantids.Memory.Container.{ContainerOps, Container, append, prepend, displace, truncate}

-- The calls that change a container.
pub data Call : Type 0 where
  appending prepending : Bytes → Call
  displacing truncating : ℕ → Call

-- The virtual operations add no more than what they are given, and the others add nothing.
pub record IsSized {C : Type 0} (ops : ContainerOps C) : Type 0 where
  pub grows :
      (c : C) (buf : Bytes) (prepend_mode : Bool)
      → ops.size (ops.append2 c buf prepend_mode).0 ≤ ops.size c + length buf
  pub displaced : (c : C) (n : ℕ) → n ≤ ops.size c → ops.size (ops.displace2 c n).0 ≤ ops.size c
  pub truncated : (c : C) (n : ℕ) → n < ops.size c → ops.size (ops.truncate2 c n).0 ≤ ops.size c

module _ {C : Type 0} (ops : ContainerOps C) where
  unfoldable pub run_call : Call → Container C → Container C
  unfolding append prepend displace truncate
  run_call (appending buf) b = (append ops b buf).0
  run_call (prepending buf) b = (prepend ops b buf).0
  run_call (displacing n) b = (displace ops b n).0
  run_call (truncating n) b = (truncate ops b n).0

  unfoldable pub run_calls : List Call → Container C → Container C
  unfolding run_call
  run_calls [] b = b
  run_calls (call ∷ calls) b = run_calls calls (run_call call b)

  run_call-limit :
      IsSized ops
      → (call : Call) (b : Container C) → ops.size b.object ≤ b.max_size
      → ((run_call call b).max_size ≡ b.max_size) × (ops.size (run_call call b).object ≤ b.max_size)
  unfolding run_call
  run_call-limit sized (appending buf) b below = ground (arith, sized.grows b.object buf false)
  run_call-limit sized (prepending buf) b below = ground (arith, sized.grows b.object buf true)
  run_call-limit sized (displacing n) b below =
      ground (arith, sized.displaced b.object n, sized.displaced b.object (ops.size b.object))
  run_call-limit sized (truncating n) b below = ground (arith, sized.truncated b.object n)

  -- Whatever the calls, the size stays at or below the limit, which stays the same.
  pub run_calls-limit :
      IsSized ops
      → (calls : List Call) (b : Container C) → ops.size b.object ≤ b.max_size
      → ((run_calls calls b).max_size ≡ b.max_size)
        × (ops.size (run_calls calls b).object ≤ b.max_size)
  unfolding run_calls
  run_calls-limit sized [] b below = (refl, below)
  run_calls-limit sized (call ∷ calls) b below =
      let (same, still) = run_call-limit sized call b below in
      let (same', still') = run_calls-limit sized calls (run_call call b) (omega (arith, same)) in
      (same' ∙ same, omega (arith, same))

  -- The test that append passes.
  unfoldable pub has_room : Container C → Bytes → Bool
  has_room b buf = not b.read_only && leb (length buf + ops.size b.object) b.max_size

  pub append_refused :
      (b : Container C) (buf : Bytes) → has_room b buf ≡ false → append ops b buf ≡ (b, (false, 0))
  unfolding append has_room
  append_refused b buf e = ground arith

  pub append_empty :
      (b : Container C)
      → ops.size b.object < u64_mod
      → has_room b [] ≡ true
      → append ops b [] ≡ (b, (true, 0))
  unfolding append has_room
  append_empty b small e = ground (arith, overflow-none 0 (ops.size b.object) (omega arith))

  pub append_passed :
      (b : Container C) (buf : Bytes)
      → length buf + ops.size b.object < u64_mod
      → 0 < length buf
      → has_room b buf ≡ true
      → append ops b buf ≡ (
        record b { object = (ops.append2 b.object buf false).0 },
        (ops.append2 b.object buf false).1,
      )
  unfolding append has_room
  append_passed b buf small pos e =
      ground (arith, overflow-none (length buf) (ops.size b.object) small)
