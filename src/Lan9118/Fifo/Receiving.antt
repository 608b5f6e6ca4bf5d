-- ===== src/Lan9118/Fifo/Receiving.antt =====
-- What lan9118_receive_by_chunks stores and returns.
use ohos_l0_adapter.Base.{
  ℕ, ◌+◌, ◌/◌, ◌%◌, ◌^◌, ◌<◌, ◌≡◌, ◌≢◌, refl, ap, ◌∙◌, List, ◌∷◌, ◌++◌, false, ◌==◌, go, returned,
  length, ◌>>=◌, inl, inr, Bool-cases, arith,
}
use ohos_l0_adapter.Lan9118.Words.{bytes_of, get_bit_field}
use ohos_l0_adapter.Lan9118.Words.Digits.{bit_and-ones}
use ohos_l0_adapter.Lan9118.Device.{Platform, Driver, read, rx_fifo_inf, rx_status_port, look}
use ohos_l0_adapter.Lan9118.Fifo.{packet_length, empty_rx_fifo, receive_by_chunks}
use ohos_l0_adapter.Lan9118.Fifo.Filling.{bytes_at, filler}
use ohos_l0_adapter.Lan9118.Fifo.Emptying.{popped, Outside, empty_rx_fifo_lem}

field14 : (w : ℕ) → get_bit_field w 0x3FFF 16 < 2 ^ 14
field14 w = omega (arith, bit_and-ones 14 (w / 2 ^ 16))

module _ (env : Platform) where
  -- The length of a packet is at most that of its field, and finding it takes nothing from the FIFO of data.
  packet_length-bound :
      {R : Type 0} (s : Driver)
      → (n : ℕ) × (n < 2 ^ 14)
        × ((packet_length env {R = R} s).0 ≡ go n)
        × (let t = (packet_length env {R = R} s).1 in
            (popped t.history ≡ popped s.history) × (t.memory ≡ s.memory))
  unfolding packet_length look ◌>>=◌
  packet_length-bound s =
      let inf = env.reply s.history (read rx_fifo_inf) % 2 ^ 32 in
      let seen : Driver = record s { history = (read rx_fifo_inf, inf) ∷ s.history } in
      let stat = env.reply seen.history (read rx_status_port) % 2 ^ 32 in
      elim (Bool-cases (get_bit_field (get_bit_field inf 0xFFFFFFFF 0) 0xFFFF 0 == 0)) [
        | inl none ↦ simp none (0, omega arith, refl, (refl, refl))
        | inr some ↦ elim (Bool-cases (get_bit_field stat 0xFFFFFFFF 0 == 0)) [
          | inl none ↦ simp (some, none) (0, omega arith, refl, (refl, refl))
          | inr packet ↦
              let stat = get_bit_field stat 0xFFFFFFFF 0 in
              simp (some, packet) (get_bit_field stat 0x3FFF 16, field14 stat, refl, (refl, refl))
        ]
      ]

  -- lan9118_receive_by_chunks to a buffer that is not NULL returns a number n of at most 16383, stores the next n bytes of the
  -- FIFO at the buffer, whatever length the caller gives, and changes no other byte of memory.
  pub receive_by_chunks_lem :
      (buffer dlen : ℕ) (s : Driver)
      → buffer ≢ 0
      → let (r, t) = receive_by_chunks env buffer dlen s in
        (n : ℕ) × (r ≡ returned n)
        × (n < 2 ^ 14)
        × ((rest : List ℕ) × (length rest ≡ filler n)
            × (bytes_of (popped t.history)
                ≡ bytes_of (popped s.history) ++ (bytes_at t.memory (buffer + env.pad) n ++ rest)))
        × ((x : ℕ) → Outside (buffer + env.pad) n x → t.memory x ≡ s.memory x)
        × (t.current_rx_size_words ≡ 0)
  unfolding receive_by_chunks ◌>>=◌
  receive_by_chunks_lem buffer dlen s some =
      let not_null : (buffer == 0) ≡ false = ground arith in
      let (n, bound, ends, (same, kept)) = packet_length-bound {R = ℕ} s in
      let found = (packet_length env {R = ℕ} s).1 in
      let (goes, (rest, count, bytes), outside) = empty_rx_fifo_lem env {R = ℕ} buffer n found in
      simp (not_null, ends, goes)
        (
          n,
          refl,
          bound,
          (
            rest,
            count,
            bytes
                ∙ ap
                    (λ ws.
                      bytes_of ws
                      ++ (bytes_at (empty_rx_fifo env {R = ℕ} buffer n found).1.memory
                            (buffer + env.pad) n
                          ++ rest))
                    same,
          ),
          (λ x out. outside x out ∙ ap (λ m. m x) kept),
          refl,
        )
