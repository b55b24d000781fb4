-- ===== src/Network/Stream.antt =====
-- Network/mdz_net_sockets/socket_streambase.cpp: loops over partialRead and partialWrite.
pub mod Receiving
pub mod Sending
use lib_mantids.Common.{
  ℕ, zero, suc, ◌-◌, min, Bool, true, false, Option, none, some, [], ◌++◌, Bytes, ltb, ◌==◌,
  if◌then◌else◌, length, take, drop,
}
use lib_mantids.Memory.Streams.{Written, new_status}

-- The virtual operations of a socket whose state, with all that stands behind it, is an `S`. none is
-- the answer -1; a read of no byte is the end of the file.
pub record SocketOps (S : Type 0) : Type 0 where
  pub partial_write : Bytes → S → Option ℕ × S
  pub partial_read : ℕ → S → Option Bytes × S
  pub shutdown_socket : S → S

-- What readFull leaves: its answer, the count that it tells, and the bytes in the caller's buffer.
pub record Received : Type 0 where
  pub complete : Bool
  pub count : ℕ
  pub bytes : Bytes

-- The next fragment: at most 4096 bytes.
unfoldable pub fragment : Bytes → Bytes
fragment left = take 4096 left

unfoldable pub fragment_size : ℕ → ℕ
fragment_size left = min 4096 left

module _ {S : Type 0} (ops : SocketOps S) where
  -- The loop of writeFull; `left` are the bytes from dataPtr on. none is a round that is still to
  -- come after `fuel` rounds, or a socket that tells more bytes than it was given.
  unfoldable pub write_full_loop : ℕ → Bytes → S → Option (Bool × S)
  write_full_loop zero left s = if length left == 0 then some (true, s) else none
  write_full_loop (suc fuel) left s =
      let (sent, s') = ops.partial_write (fragment left) s in
      if length left == 0 then some (true, s) else elim sent [
        | none ↦ some (false, ops.shutdown_socket s')
        | some n ↦
            let rest = write_full_loop fuel (drop n left) s' in
            if n == 0
            then some (false, ops.shutdown_socket s')
            else if ltb (length (fragment left)) n
            then none
            else rest
      ]

  unfoldable pub write_full : Bytes → S → Option (Bool × S)
  unfolding write_full_loop
  write_full buf s = write_full_loop (length buf) buf s

  -- The loop of readFull: `left` bytes are missing, and `got` stand in the buffer. none is a round
  -- still to come, or a socket that gives more bytes than it was asked for.
  unfoldable pub read_full_loop : ℕ → ℕ → Bytes → S → Option (Received × S)
  read_full_loop zero left got s =
      if left == 0
      then some (record { complete = true; count = length got; bytes = got }, s)
      else none
  read_full_loop (suc fuel) left got s =
      let (r, s') = ops.partial_read (fragment_size left) s in
      if left == 0
      then some (record { complete = true; count = length got; bytes = got }, s)
      else elim r [
        | none ↦ some (record { complete = false; count = 0; bytes = got }, s')
        | some bs ↦
            let rest = read_full_loop fuel (left - length bs) (got ++ bs) s' in
            if length bs == 0
            then some (record { complete = false; count = length got; bytes = got }, s')
            else if ltb (fragment_size left) (length bs)
            then none
            else rest
      ]

  -- readFull into a buffer that is there.
  unfoldable pub read_full : ℕ → S → Option (Received × S)
  unfolding read_full_loop
  read_full expected s = read_full_loop expected expected [] s

  -- write: one call of partialWrite.
  unfoldable pub write : Bytes → S → Written S
  write buf s =
      let (written, s') = ops.partial_write buf s in
      elim written [
        | none ↦ some (record new_status { succeed = false }, s')
        | some n ↦ some (
          if n == 0
              then record { succeed = length buf == 0; finish = true; bytes_written = 0 }
              else record { succeed = true; finish = false; bytes_written = n },
          s',
        )
      ]
