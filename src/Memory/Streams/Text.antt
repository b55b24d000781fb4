-- ===== src/Memory/Streams/Text.antt =====
-- StreamableString takes all that is written to it, at its end.
use lib_mantids.Common.{◌<◌, refl, sym, ap, ◌++◌, arith, Bytes, u64_mod, length, take_all}
use lib_mantids.Memory.Streams.{streamable_string}
use lib_mantids.Memory.Streams.FullWrite.{Takes}

abbrev pub Anything : Bytes → Type 0
Anything value = Unit {0}

pub appends :
    (buf value : Bytes)
    → 0 < length buf
    → length buf < u64_mod
    → Anything value
    → Takes Bytes Bytes (λ v. v) ◌++◌ Anything buf value (streamable_string.write buf value)
appends buf value some_bytes bound any = record {
  taken = length buf;
  after = value ++ buf;
  some_taken = some_bytes;
  not_beyond = omega arith;
  returns = refl;
  carried = ap (◌++◌ value) (sym (take_all (length buf) buf (omega arith)));
  invariant = any;
}
