-- ===== src/Lan9118/Fifo.antt =====
-- Sending and receiving packets through the controller's FIFOs, in lan9118_eth_drv.c. An address 0 is
-- NULL. The machine is little-endian.
pub mod Filling
pub mod Emptying
pub mod Commands
pub mod Sending
pub mod Packets
pub mod Receiving
use ohos_l0_adapter.Base.{
  ℕ, zero, suc, ◌+◌, ◌-◌, ◌/◌, ◌%◌, ◌^◌, Bool, not, ◌||◌, ◌==◌, ltb, leb, if◌then◌else◌, pure, ret,
  gets, modify, when, branch, ◌>>=◌, ◌>>◌,
}
use ohos_l0_adapter.Lan9118.Words.{set_bit, set_bit_field, get_bit_field, byte_of, word_of}
use ohos_l0_adapter.Lan9118.Device.{
  Platform, M, Fn, rx_data_port, tx_data_port, rx_status_port, rx_status_peek, tx_status_port,
  rx_fifo_inf, tx_fifo_inf, store, look, set_field_of, LanError, no_error, param, internal,
}

-- Four bytes of memory as a word.
abbrev pub word_at : (ℕ → ℕ) → ℕ → ℕ
word_at memory a = word_of (memory a) (memory (a + 1)) (memory (a + 2)) (memory (a + 3))

-- Byte i of the first word of fill_tx_fifo: bytes of the data behind `filler` zeros.
abbrev pub filled_byte : (ℕ → ℕ) → ℕ → ℕ → ℕ → ℕ
filled_byte memory a filler i = if ltb i filler then 0 else memory (a + (i - filler))

abbrev pub filled_word : (ℕ → ℕ) → ℕ → ℕ → ℕ
filled_word memory a filler =
    word_of (filled_byte memory a filler 0) (filled_byte memory a filler 1)
      (filled_byte memory a filler 2) (filled_byte memory a filler 3)

-- Stores of the first n bytes of a word, from an address on.
abbrev pub store_bytes : ℕ → ℕ → ℕ → (ℕ → ℕ) → ℕ → ℕ
store_bytes a w zero memory = memory
store_bytes a w (suc n) memory = store (a + n) (byte_of w n) (store_bytes a w n memory)

-- The first command word of a chunk. Where the size is a multiple of 4, the offset is 4.
abbrev pub tx_command_a : Bool → Bool → ℕ → ℕ
tx_command_a last? first? size =
    let a = if last? then set_bit 0 12 else 0 in
    let a = if first? then set_bit a 13 else a in
    let a = set_bit_field a 0x7FF 0 size in set_bit_field a 0x1F 16 (4 - size % 4)

-- The second command word.
abbrev pub tx_command_b : ℕ → ℕ
tx_command_b size = set_bit_field (set_bit_field 0 0x7FF 0 size) 0xFFFF 16 size

module _ (env : Platform) {R : Type 0} where
  -- A word into the transmit FIFO.
  unfoldable pub push : ℕ → M R (Unit {0})
  push w = set_field_of env tx_data_port 0xFFFFFFFF 0 w

  -- The `while` loop of `fill_tx_fifo`, for a number of words.
  unfoldable pub push_words : ℕ → ℕ → M R (Unit {0})
  push_words zero a = pure tt
  push_words (suc n) a = do w ← gets (λ s. word_at s.memory a); push w; push_words n (a + 4)

  -- `fill_tx_fifo`
  unfoldable pub fill_tx_fifo : ℕ → ℕ → M R (Unit {0})
  fill_tx_fifo buffer size = do
    first ← gets (λ s. filled_word s.memory (buffer + env.pad) (4 - size % 4))
    when (not (size % 4 == 0)) (push first)
    push_words (size / 4) (buffer + env.pad + size % 4)

  -- A word out of the receive FIFO, and its first n bytes into memory.
  unfoldable pub pop_to : ℕ → ℕ → M R (Unit {0})
  pop_to n a = do
    w ← look env rx_data_port
    modify (λ s. record s { memory = store_bytes a (get_bit_field w 0xFFFFFFFF 0) n s.memory })

  -- The `while` loop of `empty_rx_fifo`, for a number of words.
  unfoldable pub pop_words : ℕ → ℕ → M R (Unit {0})
  pop_words zero a = pure tt
  pop_words (suc n) a = do pop_to 4 a; pop_words n (a + 4)

  -- `empty_rx_fifo`
  unfoldable pub empty_rx_fifo : ℕ → ℕ → M R (Unit {0})
  empty_rx_fifo buffer size = do
    pop_words (size / 4) (buffer + env.pad)
    when (not (size % 4 == 0)) (pop_to (size % 4) (buffer + env.pad + (size - size % 4)))

  -- `lan9118_get_rxfifo_data_used_space`
  unfoldable pub get_rxfifo_data_used_space : M R ℕ
  get_rxfifo_data_used_space = do w ← look env rx_fifo_inf; pure (get_bit_field w 0xFFFF 0)

  -- `lan9118_peek_next_packet_size`
  unfoldable pub peek_next_packet_size : M R ℕ
  peek_next_packet_size = do
    used ← get_rxfifo_data_used_space
    branch (used == 0) (pure 0) (do w ← look env rx_status_peek; pure (get_bit_field w 0x3FFF 16))

  -- The length of the packet that `lan9118_receive_by_chunks` takes, 0 where there is none.
  unfoldable pub packet_length : M R ℕ
  packet_length = do
    inf ← look env rx_fifo_inf
    branch (get_bit_field (get_bit_field inf 0xFFFFFFFF 0) 0xFFFF 0 == 0) (pure 0) (do
      stat ← look env rx_status_port
      let stat = get_bit_field stat 0xFFFFFFFF 0
      branch (stat == 0) (pure 0) (do
        let length = get_bit_field stat 0x3FFF 16
        modify (λ s. record s { current_rx_size_words = length })
        pure length))

module _ (env : Platform) where
  -- `lan9118_receive_by_chunks`; the length of the caller's buffer is not looked at.
  unfoldable pub receive_by_chunks : ℕ → ℕ → Fn ℕ
  receive_by_chunks buffer dlen = do
    when (buffer == 0) (ret 0)
    length ← packet_length env
    empty_rx_fifo env buffer length
    modify (λ s. record s { current_rx_size_words = 0 })
    ret length

  -- The rest of `lan9118_send_by_chunks` for a chunk that the FIFO has space for.
  unfoldable pub send_chunk : Bool → Bool → ℕ → ℕ → Fn LanError
  send_chunk last? first? buffer size = do
    push env (tx_command_a last? first? size)
    push env (tx_command_b size)
    fill_tx_fifo env buffer size
    when last? (do look env tx_status_port; pure tt)
    modify (λ s. record s {
      ongoing_packet_length_sent = (s.ongoing_packet_length_sent + size) % 2 ^ 32;
    })
    ret no_error

  -- `lan9118_send_by_chunks`
  unfoldable pub send_by_chunks : ℕ → Bool → ℕ → ℕ → Fn LanError
  send_by_chunks total new? buffer size = do
    when (buffer == 0) (ret param)
    length ← gets (λ s. s.ongoing_packet_length)
    sent ← gets (λ s. s.ongoing_packet_length_sent)
    branch new?
        (modify (λ s. record s { ongoing_packet_length = total; ongoing_packet_length_sent = 0 }))
        (when (not (length == total) || leb total sent) (ret param))
    inf ← look env tx_fifo_inf
    when (ltb (get_bit_field inf 0xFFFF 0) size) (ret internal)
    sent ← gets (λ s. s.ongoing_packet_length_sent)
    let last? = (sent + size) % 2 ^ 32 == total
    send_chunk last? new? buffer size
