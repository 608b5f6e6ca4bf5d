-- ===== src/Lan9118/Fifo/Packets.antt =====
-- Whole packets through lan9118_send_by_chunks: what the chip takes of one chunk, and packets of many
-- chunks.
use mathlib.Core.List.{append-nil, append_assoc}
use ohos_l0_adapter.Base.{
  ℕ, zero, suc, ◌+◌, ◌-◌, ◌%◌, ◌^◌, ◌<◌, ◌≤◌, ◌≡◌, ◌≢◌, refl, sym, ap, ◌∙◌, List, [], ◌∷◌, ◌++◌,
  replicate, take, drop, length, Bool, true, false, ◌==◌, if◌then◌else◌, returned, ret, when,
  invoke, ◌>>=◌, ◌>>◌, inl, inr, Bool-cases, arith,
}
use ohos_l0_adapter.Lan9118.Words.{bytes_of}
use ohos_l0_adapter.Lan9118.Device.{Platform, Driver, Fn, LanError, no_error, is_error}
use ohos_l0_adapter.Lan9118.Fifo.{tx_command_a, tx_command_b, send_by_chunks}
use ohos_l0_adapter.Lan9118.Fifo.Filling.{WriteOnly, sent, bytes_at, filler}
use ohos_l0_adapter.Lan9118.Fifo.Commands.{
  start_offset, buffer_size, buffer_size-tx_command_a, start_offset-tx_command_a,
}
use ohos_l0_adapter.Lan9118.Fifo.Sending.{Takes, sent_before, is_last, HasSpace, send_by_chunks_lem}

drop-replicate : (n : ℕ) (xs : List ℕ) → drop n (replicate n 0 ++ xs) ≡ xs
drop-replicate zero xs = refl
drop-replicate (suc n) xs = drop-replicate n xs

take-all : (n : ℕ) (xs : List ℕ) → length xs ≤ n → take n xs ≡ xs
take-all zero [] le = refl
take-all zero (x ∷ xs) le = absurd (omega arith)
take-all (suc n) [] le = refl
take-all (suc n) (x ∷ xs) le = ap (λ b. x ∷ b) (take-all n xs (omega arith))

length-drop : (n : ℕ) (xs : List ℕ) → length (drop n xs) ≤ length xs
length-drop zero xs = omega arith
length-drop (suc n) [] = omega arith
length-drop (suc n) (x ∷ xs) = omega (arith, length-drop n xs)

length-bytes_at : (m : ℕ → ℕ) (a n : ℕ) → length (bytes_at m a n) ≡ n
length-bytes_at m a zero = refl
length-bytes_at m a (suc n) = ap suc (length-bytes_at m (a + 1) n)

-- What a chip takes of the bytes behind a command word: it skips the bytes of the offset field, and takes
-- as many as the size field says.
abbrev pub taken : ℕ → List ℕ → List ℕ
taken cmd bytes = take (buffer_size cmd) (drop (start_offset cmd) bytes)

taken-filled :
    (last? first? : Bool) (size : ℕ) (bytes : List ℕ)
    → size < 2 ^ 11
    → length bytes ≡ size
    → taken (tx_command_a last? first? size) (replicate (filler size) 0 ++ bytes)
      ≡ (if size % 4 == 0 then drop 4 bytes else bytes)
taken-filled last? first? size bytes lt count = elim (Bool-cases (size % 4 == 0)) [
  | inl whole ↦
      let none : filler size ≡ 0 = ground arith in
      let four : 4 - size % 4 ≡ 4 = ground arith in
      rw
        (
          buffer_size-tx_command_a last? first? size lt,
          start_offset-tx_command_a last? first? size lt,
        )
        (simp (whole, none, four)
          (take-all size (drop 4 bytes) (omega (arith, length-drop 4 bytes, count))))
  | inr part ↦
      let some : filler size ≡ 4 - size % 4 = ground arith in
      rw
        (
          buffer_size-tx_command_a last? first? size lt,
          start_offset-tx_command_a last? first? size lt,
        )
        (simp (part, some)
          (ap (take size) (drop-replicate (4 - size % 4) bytes)
            ∙ take-all size bytes (omega (arith, count))))
]

module _ (env : Platform) (size buffer : ℕ) (write_only : WriteOnly env) (space : HasSpace env size)
    (fits : size < 2 ^ 11) (some : buffer ≢ 0) where
  -- A packet of less than 2048 bytes in one chunk, for which a chip has space whose FIFO port shows 0:
  -- what the chip takes of the bytes behind the command words is the packet where the size is no multiple of 4,
  -- and else the packet without its first four bytes.
  pub send_by_chunks-taken :
      (s : Driver)
      → let (r, t) = send_by_chunks env size true buffer size s in
        let packet = bytes_at s.memory (buffer + env.pad) size in
        let cmd = tx_command_a true true size in
        (r ≡ returned no_error)
        × ((bytes : List ℕ) × (bytes_of (sent t.history)
              ≡ bytes_of (sent s.history) ++ (bytes_of (cmd ∷ tx_command_b size ∷ []) ++ bytes))
            × (taken cmd bytes ≡ (if size % 4 == 0 then drop 4 packet else packet)))
  send_by_chunks-taken s =
      let (ends, bytes, length_set, count, same) =
        send_by_chunks_lem env size size buffer write_only space fits some true s tt in
      let packet = bytes_at s.memory (buffer + env.pad) size in
      let last : is_last size true size s ≡ true = ground arith in
      (
        ends,
        (
          replicate (filler size) 0 ++ packet,
          simp last at bytes,
          taken-filled true true size packet fits
              (length-bytes_at s.memory (buffer + env.pad) size),
        ),
      )

-- A part of a packet: its address and its size.
abbrev pub Chunk : Type 0
Chunk = ℕ × ℕ

abbrev pub total_of : List Chunk → ℕ
total_of [] = 0
total_of ((a, n) ∷ cs) = n + total_of cs

module _ (env : Platform) where
  -- A client that sends a packet in chunks and stops at the first error.
  unfoldable pub send_all : ℕ → Bool → List Chunk → Fn LanError
  send_all total new? [] = ret no_error
  send_all total new? ((a, n) ∷ cs) = do
    error ← invoke (send_by_chunks env total new? a n)
    when (is_error error) (ret error)
    send_all total false cs

  -- Chunks that the driver and the chip can take: none is empty, too long or NULL, and there is space.
  abbrev pub Sendable : List Chunk → Type 0
  Sendable [] = Unit {0}
  Sendable ((a, n) ∷ cs) = (a ≢ 0) × (0 < n) × (n < 2 ^ 11) × HasSpace env n × Sendable cs

  -- What the FIFO gets for one chunk.
  abbrev pub chunk_bytes : (ℕ → ℕ) → Bool → Bool → ℕ → ℕ → List ℕ
  chunk_bytes memory last? first? a n =
      bytes_of (tx_command_a last? first? n ∷ tx_command_b n ∷ [])
      ++ (replicate (filler n) 0 ++ bytes_at memory (a + env.pad) n)

  -- What the FIFO gets for chunks of a packet behind its first `start` bytes. The first-segment bit is set
  -- in the first chunk alone, and the last-segment bit where the packet's total is reached.
  abbrev pub stream : (ℕ → ℕ) → ℕ → ℕ → Bool → List Chunk → List ℕ
  stream memory total start first? [] = []
  stream memory total start first? ((a, n) ∷ cs) =
      chunk_bytes memory (start + n == total) first? a n ++ stream memory total (start + n) false cs

  module _ (write_only : WriteOnly env) (total : ℕ) (bound : total < 2 ^ 32) where
    -- One chunk in a state that takes it, with sums below the bound.
    send_one :
        (new? : Bool) (a n : ℕ) (s : Driver)
        → Takes total new? s
        → a ≢ 0
        → n < 2 ^ 11
        → HasSpace env n
        → sent_before new? s + n ≤ total
        → let (r, t) = send_by_chunks env total new? a n s in
          (r ≡ returned no_error)
          × (bytes_of (sent t.history)
              ≡ bytes_of (sent s.history)
                ++ chunk_bytes s.memory (sent_before new? s + n == total) new? a n)
          × (t.ongoing_packet_length ≡ total)
          × (t.ongoing_packet_length_sent ≡ sent_before new? s + n)
          × (t.memory ≡ s.memory)
    send_one new? a n s takes some fits space le =
        let (ends, bytes, length_set, count, same) =
          send_by_chunks_lem env total n a write_only space fits some new? s takes in
        let small : (sent_before new? s + n) % 2 ^ 32 ≡ sent_before new? s + n = omega arith in
        let chunk = λ (k : ℕ). chunk_bytes s.memory (k == total) new? a n in
        (
          ends,
          bytes ∙ ap (λ k. bytes_of (sent s.history) ++ chunk k) small,
          length_set,
          count ∙ small,
          same,
        )

    -- The bytes of one chunk and of those behind it.
    stream_step :
        (before mid end chunk : List ℕ) (m m' : ℕ → ℕ) (k k' : ℕ) (cs : List Chunk)
        → end ≡ mid ++ stream m' total k' false cs
        → m' ≡ m
        → k' ≡ k
        → mid ≡ before ++ chunk
        → end ≡ before ++ (chunk ++ stream m total k false cs)
    stream_step before mid end chunk m m' k k' cs others kept count bytes =
        others
        ∙ ap (λ r. mid ++ stream r total k' false cs) kept
        ∙ ap (λ r. mid ++ stream m total r false cs) count
        ∙ ap (λ b. b ++ stream m total k false cs) bytes
        ∙ append_assoc before chunk (stream m total k false cs)

    send_all-from :
        (cs : List Chunk) (s : Driver)
        → Sendable cs
        → s.ongoing_packet_length ≡ total
        → s.ongoing_packet_length_sent + total_of cs ≡ total
        → let (r, t) = send_all total false cs s in
          (r ≡ returned no_error)
          × (bytes_of (sent t.history)
              ≡ bytes_of (sent s.history)
                ++ stream s.memory total s.ongoing_packet_length_sent false cs)
          × (t.ongoing_packet_length_sent ≡ total)
    unfolding send_all ◌>>=◌
    send_all-from [] s sendable same sum =
        (refl, sym (append-nil (bytes_of (sent s.history))), omega arith)
    send_all-from ((a, n) ∷ cs) s (some, positive, fits, space, rest) same sum =
        let (ends, bytes, length_set, count, kept) =
          send_one false a n s (same, omega arith) some fits space (omega arith) in
        let t = (send_by_chunks env total false a n s).1 in
        let (finish, others, whole) = send_all-from cs t rest length_set (omega (arith, count)) in
        let chunk = chunk_bytes s.memory (s.ongoing_packet_length_sent + n == total) false a n in
        let bytes_all =
          stream_step (bytes_of (sent s.history)) (bytes_of (sent t.history))
            (bytes_of (sent (send_all total false cs t).1.history)) chunk s.memory t.memory
            (s.ongoing_packet_length_sent + n) t.ongoing_packet_length_sent cs others kept count
            bytes in
        simp ends (finish, bytes_all, whole)

    pub send_all-sent :
        (a n : ℕ) (cs : List Chunk) (s : Driver)
        → Sendable ((a, n) ∷ cs)
        → n + total_of cs ≡ total
        → let (r, t) = send_all total true ((a, n) ∷ cs) s in
          (r ≡ returned no_error)
          × (bytes_of (sent t.history)
              ≡ bytes_of (sent s.history) ++ stream s.memory total 0 true ((a, n) ∷ cs))
          × (t.ongoing_packet_length_sent ≡ total)
    unfolding send_all ◌>>=◌
    send_all-sent a n cs s (some, positive, fits, space, rest) sum =
        let (ends, bytes, length_set, count, kept) =
          send_one true a n s tt some fits space (omega arith) in
        let t = (send_by_chunks env total true a n s).1 in
        let (finish, others, whole) = send_all-from cs t rest length_set (omega (arith, count)) in
        let chunk = chunk_bytes s.memory (0 + n == total) true a n in
        let bytes_all =
          stream_step (bytes_of (sent s.history)) (bytes_of (sent t.history))
            (bytes_of (sent (send_all total false cs t).1.history)) chunk s.memory t.memory (0 + n)
            t.ongoing_packet_length_sent cs others kept count bytes in
        simp ends (finish, bytes_all, whole)
