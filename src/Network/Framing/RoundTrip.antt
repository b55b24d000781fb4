-- ===== src/Network/Framing/RoundTrip.antt =====
-- Blocks and numbers that are written are read back.
use lib_mantids.Common.{
  ℕ, ◌+◌, ◌-◌, ◌≤◌, ◌<◌, ◌≡◌, refl, sym, ap, ◌∙◌, inl, inr, true, false, some, [], ◌++◌, append-nil,
  append_assoc, arith, Bytes, ltb, ◌==◌, Bool-cases, le→ltb-false, lt_or_le, length, take, drop,
  replicate, take_all, drop_all, drop_within, take_within, take_past, length-append, length-take,
}
use lib_mantids.Network.Stream.{SocketOps, read_full}
use lib_mantids.Network.Stream.Sending.{Sends, write_full-sent}
use lib_mantids.Network.Stream.Receiving.{Reads, read_full-received}
use lib_mantids.Network.Framing.{
  Width, size_of, modulus, to_network, to_host, allocated, write_number, write_block, write_string,
  read_number, read_u, read_block_w_alloc, read_string,
}
use lib_mantids.Network.Framing.Numbers.{
  frame, length-to_network, to_host-to_network, allocated_enough, below_modulus, same_test, enough,
  too_few, whole_text, positive_test, no_bytes,
}

module _ {S : Type 0} (ops : SocketOps S) (sent : S → Bytes)
    (sends : (buf : Bytes) (s : S) → 0 < length buf → Sends ops sent buf s) where
  write_block-sent :
      (w : Width) (str : Bytes) (s : S)
      → (after : S) × (write_block ops w str (length str) s ≡ some (true, after))
        × (sent after ≡ sent s ++ frame w str)
  unfolding write_block write_number frame
  write_block-sent w str s =
      let (middle, numbered, head) = write_full-sent ops sent sends (to_network w (length str)) s in
      let (after, written, body) = write_full-sent ops sent sends (take (length str) str) middle in
      elim (Bool-cases (length str == 0)) [
        | inl e ↦ (
          middle,
          rw (numbered, write_block, e),
          head
              ∙ ap (◌++◌ (sent s)) (
                  sym (append-nil (to_network w (length str)))
                  ∙ ap (◌++◌ (to_network w (length str))) (sym (no_bytes str e))),
        )
        | inr e ↦ (
          after,
          rw (numbered, write_block, e, written),
          body
              ∙ ap (λ l. l ++ take (length str) str) head
              ∙ append_assoc (sent s) (to_network w (length str)) (take (length str) str)
              ∙ ap (λ l. sent s ++ (to_network w (length str) ++ l))
                  (take_all (length str) str (omega arith)),
        )
      ]

  write_string-sent :
      (w : Width) (str : Bytes) (max_size : ℕ) (s : S)
      → length str ≤ max_size
      → length str < modulus w
      → (after : S) × (write_string ops w str max_size s ≡ some (true, after))
        × (sent after ≡ sent s ++ frame w str)
  unfolding write_string
  write_string-sent w str max_size s fits small =
      let (after, written, all) = write_block-sent w str s in
      (
        after,
        rw (le→ltb-false max_size (length str) fits, below_modulus w (length str) small) written,
        all,
      )

module _ {S : Type 0} (ops : SocketOps S) (incoming : S → Bytes)
    (reads : (n : ℕ) (s : S) → 0 < n → Reads ops incoming n s) where
  -- readFull where the bytes come.
  read_full-exact :
      (xs rest : Bytes) (s : S)
      → incoming s ≡ xs ++ rest
      → (after : S) × (read_full ops (length xs) s
          ≡ some (record { complete = true; count = length xs; bytes = xs }, after))
        × (incoming after ≡ rest)
  read_full-exact xs rest s e =
      let n = length xs in
      let (after, done, left) = read_full-received ops incoming reads n s in
      let whole : take n (incoming s) ≡ xs =
        ap (take n) e ∙ take_within n xs rest (omega arith) ∙ take_all n xs (omega arith) in
      (
        after,
        done
            ∙ ap
                (λ c. some (
                  record {
                    complete = c;
                    count = length (take n (incoming s));
                    bytes = take n (incoming s);
                  },
                  after,
                ))
                (enough n (length (incoming s)) (omega (arith, ap length e, length-append xs rest)))
            ∙ ap (λ l. some (record { complete = true; count = length l; bytes = l }, after)) whole,
        left
            ∙ ap (drop n) e
            ∙ drop_within n xs rest (omega arith)
            ∙ ap (λ l. l ++ rest) (drop_all n xs (omega arith)),
      )

  read_u-exact :
      (w : Width) (n : ℕ) (rest : Bytes) (s : S)
      → n < modulus w
      → incoming s ≡ to_network w n ++ rest
      → (after : S) × (read_u ops w s ≡ some ((true, n), after)) × (incoming after ≡ rest)
  unfolding read_u read_number
  read_u-exact w n rest s small e =
      let bs = to_network w n in
      let (after, done, left) = read_full-exact bs rest s e in
      let size = length-to_network w n in
      (
        after,
        rw
            (
              ap (λ k. read_full ops k s) (sym size) ∙ done,
              read_u,
              ap (λ k. k == size_of w) size,
              same_test (size_of w),
            )
            (ap (λ v. some ((true, v), after))
              (ap (to_host w) (
                  take_within (size_of w) bs (replicate (size_of w) 0) (omega (arith, size))
                  ∙ take_all (size_of w) bs (omega (arith, size)))
                ∙ to_host-to_network w n small)),
        left,
      )

  -- readFull where the end comes first.
  read_full-short :
      (n : ℕ) (s : S)
      → length (incoming s) < n
      → (after : S) × (got : ℕ) × (bytes : Bytes) × (read_full ops n s
          ≡ some (record { complete = false; count = got; bytes = bytes }, after))
  read_full-short n s h =
      let (after, done, left) = read_full-received ops incoming reads n s in
      (
        after,
        length (take n (incoming s)),
        take n (incoming s),
        done
            ∙ ap
                (λ c. some (
                  record {
                    complete = c;
                    count = length (take n (incoming s));
                    bytes = take n (incoming s);
                  },
                  after,
                ))
                (too_few n (length (incoming s)) h),
      )

  read_block_w_alloc-exact :
      (w : Width) (str rest : Bytes) (max_length : ℕ) (s : S)
      → length str ≤ max_length
      → length str + 1 < modulus w
      → incoming s ≡ frame w str ++ rest
      → (after : S) × (read_block_w_alloc ops w max_length s ≡ some ((some str, length str), after))
        × (incoming after ≡ rest)
  unfolding read_block_w_alloc frame
  read_block_w_alloc-exact w str rest max_length s fits small e =
      let n = length str in
      let (middle, numbered, body) =
        read_u-exact w n (str ++ rest) s (omega arith)
          (e ∙ append_assoc (to_network w n) str rest) in
      let (after, done, left) = read_full-exact str rest middle body in
      elim (Bool-cases (n == 0)) [
        | inl none_there ↦ (
          middle,
          rw (numbered, read_block_w_alloc, le→ltb-false max_length n fits, none_there)
              (ap (λ l. some ((some l, length l), middle)) (sym (no_bytes str none_there))),
          body ∙ ap (λ l. l ++ rest) (no_bytes str none_there),
        )
        | inr some_there ↦ (
          after,
          rw
              (
                numbered,
                read_block_w_alloc,
                le→ltb-false max_length n fits,
                some_there,
                le→ltb-false (allocated w n) n (allocated_enough w n small),
                done,
                same_test n,
              )
              refl,
          left,
        )
      ]

  read_string-exact :
      (w : Width) (str rest : Bytes) (max_length : ℕ) (s : S)
      → length str ≤ max_length
      → length str + 1 < modulus w
      → incoming s ≡ frame w str ++ rest
      → (after : S) × (read_string ops w max_length s ≡ some ((true, str), after))
        × (incoming after ≡ rest)
  unfolding read_string
  read_string-exact w str rest max_length s fits small e =
      let (after, done, left) = read_block_w_alloc-exact w str rest max_length s fits small e in
      (after, rw (done, read_string) (ap (λ l. some ((true, l), after)) (whole_text str)), left)

  read_string-cut :
      (w : Width) (n max_length got : ℕ) (bytes : Bytes) (s middle after : S)
      → n + 1 < modulus w
      → (n == 0) ≡ false
      → read_u ops w s ≡ some ((true, n), middle)
      → read_full ops n middle
        ≡ some (record { complete = false; count = got; bytes = bytes }, after)
      → (last : S) × (read_string ops w max_length s ≡ some ((false, []), last))
  unfolding read_string read_block_w_alloc
  read_string-cut w n max_length got bytes s middle after small some_there numbered done =
      elim (Bool-cases (ltb max_length n)) [
        | inl large ↦
            (ops.shutdown_socket middle, rw (numbered, read_string, read_block_w_alloc, large))
        | inr fits ↦ (
          ops.shutdown_socket after,
          rw (
            numbered,
            read_string,
            read_block_w_alloc,
            fits,
            some_there,
            le→ltb-false (allocated w n) n (allocated_enough w n small),
            done,
          ),
        )
      ]

  -- Where the connection ends inside of a text or of its length, readStringEx returns, and answers
  -- that nothing was read, for every text whose length and one more are below the modulus of the
  -- width of its length.
  pub read_string-truncated :
      (w : Width) (str : Bytes) (k max_length : ℕ) (s : S)
      → length str + 1 < modulus w
      → k < length (frame w str)
      → incoming s ≡ take k (frame w str)
      → (after : S) × (read_string ops w max_length s ≡ some ((false, []), after))
  unfolding read_string read_block_w_alloc read_u read_number frame
  read_string-truncated w str k max_length s small cut e =
      let n = length str in
      let size = length-to_network w n in
      let whole = length-append (to_network w n) str in
      elim (lt_or_le k (size_of w)) [
        | inl early ↦
            let (middle, got, bytes, done) =
              read_full-short (size_of w) s
                (omega (arith, ap length e, length-take k (to_network w n ++ str))) in
            (
              ops.shutdown_socket middle,
              rw (done, read_string, read_block_w_alloc, read_u, read_number),
            )
        | inr late ↦
            let (middle, numbered, body) =
              read_u-exact w n (take (k - length (to_network w n)) str) s (omega arith)
                (e ∙ take_past k (to_network w n) str (omega arith)) in
            let (after, got, bytes, done) =
              read_full-short n middle
                (omega (arith, ap length body, length-take (k - length (to_network w n)) str)) in
            read_string-cut w n max_length got bytes s middle after small
              (positive_test n (omega arith)) numbered done
      ]

-- What writeStringEx writes to one socket, readStringEx reads from another that it comes in on, and
-- leaves what stands behind it. Both calls return with success, for a text that the limits of both
-- and its type allow, where the sockets move a byte or more in each call.
pub read_string-write_string :
    {W R : Type 0} (out : SocketOps W) (inp : SocketOps R) (sent : W → Bytes) (incoming : R → Bytes)
    (sends : (buf : Bytes) (s : W) → 0 < length buf → Sends out sent buf s)
    (reads : (n : ℕ) (s : R) → 0 < n → Reads inp incoming n s) (w : Width) (str rest : Bytes)
    (max_size max_length : ℕ) (a : W) (b : R)
    → length str ≤ max_size
    → length str ≤ max_length
    → length str + 1 < modulus w
    → incoming b ≡ frame w str ++ rest
    → (a' : W) × (b' : R) × (write_string out w str max_size a ≡ some (true, a'))
      × (sent a' ≡ sent a ++ frame w str)
      × (read_string inp w max_length b ≡ some ((true, str), b'))
      × (incoming b' ≡ rest)
read_string-write_string out inp sent incoming sends reads w str rest max_size max_length a b
      writable readable small e =
    let (a', written, all) =
      write_string-sent out sent sends w str max_size a writable (omega arith) in
    let (b', text_read, left) =
      read_string-exact inp incoming reads w str rest max_length b readable small e in
    (a', b', written, all, text_read, left)
