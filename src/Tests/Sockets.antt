-- ===== src/Tests/Sockets.antt =====
-- Network/mdz_net_sockets: sockets that move a few bytes in each call.
use lib_mantids.Common.{
  ℕ, ◌<◌, min, ◌≡◌, refl, sym, ap, ◌∙◌, inl, inr, true, false, some, [], ◌∷◌, ◌++◌, arith, text,
  Bytes, lt_or_le, length, take, drop, take_all, drop_all,
}
use lib_mantids.Network.Stream.{SocketOps}
use lib_mantids.Network.Stream.Sending.{Sends}
use lib_mantids.Network.Stream.Receiving.{Reads}
use lib_mantids.Network.Framing.{w8, w16, write_string, read_string, to_network}
use lib_mantids.Network.Framing.Numbers.{frame}
use lib_mantids.Network.Framing.RoundTrip.{read_string-write_string, read_string-truncated}

-- The state is what was sent, or what is still to come.
abbrev by_three : SocketOps Bytes
by_three = record {
  partial_write = λ buf s. (some (min 3 (length buf)), s ++ take (min 3 (length buf)) buf);
  partial_read = λ n s. (some (take (min 3 n) s), drop (min 3 n) s);
  shutdown_socket = λ s. s;
}

by_three-Sends : (buf : Bytes) (s : Bytes) → 0 < length buf → Sends by_three (λ t. t) buf s
by_three-Sends buf s h = record {
  taken = min 3 (length buf);
  after = s ++ take (min 3 (length buf)) buf;
  some_taken = omega arith;
  not_beyond = omega arith;
  returns = refl;
  carried = refl;
}

take-min : (k : ℕ) (s : Bytes) → take (min k (length s)) s ≡ take k s
take-min k s = elim (lt_or_le k (length s)) [
  | inl h ↦ ap (λ n. take n s) (omega arith)
  | inr h ↦
      ap (λ n. take n s) {x = min k (length s)} {y = length s} (omega arith)
      ∙ take_all (length s) s (omega arith)
      ∙ sym (take_all k s h)
]

drop-min : (k : ℕ) (s : Bytes) → drop k s ≡ drop (min k (length s)) s
drop-min k s = elim (lt_or_le k (length s)) [
  | inl h ↦ ap (λ n. drop n s) (omega arith)
  | inr h ↦ drop_all k s h ∙ sym (drop_all (min k (length s)) s (omega arith))
]

by_three-Reads : (n : ℕ) (s : Bytes) → 0 < n → Reads by_three (λ t. t) n s
by_three-Reads n s h = record {
  taken = min (min 3 n) (length s);
  after = drop (min 3 n) s;
  not_beyond = omega arith;
  within = omega arith;
  some_taken = λ more. omega arith;
  returns = ap (λ bs. (some bs, drop (min 3 n) s)) (sym (take-min (min 3 n) s));
  left = drop-min (min 3 n) s;
}

read_string-write_string_example :
    (a : Bytes) × (b : Bytes) × (write_string by_three w16 (text "login") 65534 [] ≡ some (true, a))
    × (a ≡ 0 ∷ 5 ∷ text "login")
    × (read_string by_three w16 65534 (0 ∷ 5 ∷ text "login!") ≡ some ((true, text "login"), b))
    × (b ≡ text "!")
unfolding frame to_network
read_string-write_string_example =
    read_string-write_string by_three by_three (λ t. t) (λ t. t) by_three-Sends by_three-Reads w16
      (text "login") (text "!") 65534 65534 [] (0 ∷ 5 ∷ text "login!") (omega arith) (omega arith)
      (omega arith) refl

read_string-truncated_example :
    (b : Bytes) × (read_string by_three w8 254 (5 ∷ text "log") ≡ some ((false, []), b))
unfolding frame to_network
read_string-truncated_example =
    read_string-truncated by_three (λ t. t) by_three-Reads w8 (text "login") 4 254 (5 ∷ text "log")
      (omega arith) (omega arith) refl
