-- ===== src/Network/Framing.antt =====
-- Network/mdz_net_sockets/socket_streambasewriter.h and .cpp, socket_streambasereader.h and .cpp:
-- numbers in network order, and blocks behind their length. The type argument T of the source is a
-- Width; another size throws there. The host is little endian.
pub mod Numbers
pub mod RoundTrip
use lib_mantids.Common.{
  ℕ, zero, suc, ◌+◌, ◌*◌, ◌/◌, ◌%◌, ◌^◌, Bool, true, false, not, ◌&&◌, ◌||◌, Option, none, some, [],
  ◌∷◌, ◌++◌, Bytes, ltb, ◌==◌, if◌then◌else◌, length, take, drop, replicate,
}
use lib_mantids.Network.Stream.{SocketOps, write_full, read_full}

pub data Width : Type 0 where
  w8 : Width
  w16 : Width
  w32 : Width
  w64 : Width

-- sizeof(T)
abbrev pub size_of : Width → ℕ
size_of w8 = 1
size_of w16 = 2
size_of w32 = 4
size_of w64 = 8

-- std::numeric_limits<T>::max() + 1
abbrev pub modulus : Width → ℕ
modulus w8 = 256
modulus w16 = 65536
modulus w32 = 4294967296
modulus w64 = 18446744073709551616

-- The bytes of a number, the highest first.
unfoldable pub big_endian : ℕ → ℕ → Bytes
big_endian zero n = []
big_endian (suc k) n = (n / 256 ^ k % 256) ∷ big_endian k n

unfoldable pub number_of : ℕ → Bytes → ℕ
number_of acc [] = acc
number_of acc (b ∷ bs) = number_of (acc * 256 + b) bs

-- htons, htonl and htonll, as the bytes that stand in memory. htonll turns the two halves over, and
-- each of them by htonl.
unfoldable pub to_network : Width → ℕ → Bytes
unfolding big_endian
to_network w8 n = n ∷ []
to_network w16 n = big_endian 2 n
to_network w32 n = big_endian 4 n
to_network w64 n = big_endian 4 (n / 2 ^ 32) ++ big_endian 4 (n % 2 ^ 32)

-- ntohs, ntohl and ntohll
unfoldable pub to_host : Width → Bytes → ℕ
unfolding number_of
to_host w64 bs = number_of 0 (take 4 bs) * 2 ^ 32 + number_of 0 (drop 4 bs)
to_host w bs = number_of 0 bs

-- new char[n + 1]: the type of n + 1 is int for the smaller types, and T for the others.
abbrev pub allocated : Width → ℕ → ℕ
allocated w8 n = n + 1
allocated w16 n = n + 1
allocated w32 n = (n + 1) % 4294967296
allocated w64 n = (n + 1) % 18446744073709551616

-- What readBlockEx leaves: its answer, the length, and the bytes in the caller's buffer.
pub record Block : Type 0 where
  pub valid : Bool
  pub datalen : ℕ
  pub bytes : Bytes

module _ {S : Type 0} (ops : SocketOps S) where
  -- writeDeSync and readDeSync are a shutdown of the socket.
  abbrev pub de_sync : S → S
  de_sync s = ops.shutdown_socket s

  -- writeU8, writeU16, writeU32 and writeU64
  unfoldable pub write_number : Width → ℕ → S → Option (Bool × S)
  write_number w n s = write_full ops (to_network w n) s

  unfoldable pub write_u : Width → ℕ → S → Option (Bool × S)
  write_u w n s = elim (write_number w n s) [
    | none ↦ none
    | some (r, s') ↦ some (r, if r then s' else de_sync s')
  ]

  -- writeBlockEx of the `datalen` bytes at `buf`.
  unfoldable pub write_block : Width → Bytes → ℕ → S → Option (Bool × S)
  write_block w buf datalen s = elim (write_number w datalen s) [
    | none ↦ none
    | some (wr, s') ↦
        let block = write_full ops (take datalen buf) s' in
        if not wr
        then some (false, s')
        else if datalen == 0
        then some (true, s')
        else elim block [ none ↦ none | some (r, s'') ↦ some (r, if r then s'' else de_sync s'') ]
  ]

  -- writeStringEx; the size goes on as a T.
  unfoldable pub write_string : Width → Bytes → ℕ → S → Option (Bool × S)
  write_string w str max_size s =
      if ltb max_size (length str)
      then some (false, de_sync s)
      else write_block w str (length str % modulus w) s

  -- readU8, readU16, readU32 and readU64: readOK, and the number, of which the bytes that have not
  -- come are 0.
  unfoldable pub read_number : Width → S → Option ((Bool × ℕ) × S)
  read_number w s = elim (read_full ops (size_of w) s) [
    | none ↦ none
    | some (r, s') ↦ some (
      (
        r.complete && r.count == size_of w,
        to_host w (take (size_of w) (r.bytes ++ replicate (size_of w) 0)),
      ),
      s',
    )
  ]

  unfoldable pub read_u : Width → S → Option ((Bool × ℕ) × S)
  read_u w s = elim (read_number w s) [
    | none ↦ none
    | some ((ok, n), s') ↦ some ((ok, n), if ok then s' else de_sync s')
  ]

  -- readBlockEx into a buffer of `datalen` bytes.
  unfoldable pub read_block : Width → ℕ → Bool → S → Option (Block × S)
  read_block w datalen must_receive_full s =
      let body : Option (Block × S) = elim (read_u w s) [
        | none ↦ none
        | some ((ok, len), s') ↦
            let block = read_full ops len s' in
            if not ok
            then some (record { valid = false; datalen = datalen; bytes = [] }, s')
            else if not (len == datalen) && must_receive_full || ltb datalen len
            then some (record { valid = false; datalen = datalen; bytes = [] }, de_sync s')
            else if len == 0
            then some (record { valid = true; datalen = 0; bytes = [] }, s')
            else elim block [
              | none ↦ none
              | some (r, s'') ↦ some (
                record { valid = r.complete && r.count == len; datalen = len; bytes = r.bytes },
                s'',
              )
            ]
      ] in
      if datalen == 0 then some (record { valid = true; datalen = 0; bytes = [] }, s) else body

  -- readBlockWAllocEx: the memory, which is none where the pointer is null, and the length. The call
  -- is none where the bytes are more than the memory that was allocated for them.
  unfoldable pub read_block_w_alloc : Width → ℕ → S → Option ((Option Bytes × ℕ) × S)
  read_block_w_alloc w datalen s = elim (read_u w s) [
    | none ↦ none
    | some ((ok, expected), s') ↦
        let block = read_full ops expected s' in
        if not ok
        then some ((none, 0), s')
        else if ltb datalen expected
        then some ((none, 0), de_sync s')
        else if expected == 0
        then some ((some [], 0), s')
        else if ltb (allocated w expected) expected
        then none
        else elim block [
          | none ↦ none
          | some (r, s'') ↦ some (
              if r.complete && r.count == expected
              then ((some r.bytes, expected), s'')
              else ((none, 0), de_sync s''))
        ]
  ]

  -- readStringEx: readOK, and the text.
  unfoldable pub read_string : Width → ℕ → S → Option ((Bool × Bytes) × S)
  read_string w max_length s = elim (read_block_w_alloc w max_length s) [
    | none ↦ none
    | some ((pointer, received_bytes), s') ↦ elim pointer [
      | none ↦ some ((false, []), s')
      | some block ↦
          some ((true, if received_bytes == 0 then [] else take received_bytes block), s')
    ]
  ]
