-- ===== src/Lan9118/Fifo/Sending.antt =====
-- What lan9118_send_by_chunks gives to the chip for one chunk of a packet.
use mathlib.Core.List.{append_assoc}
use ohos_l0_adapter.Base.{
  ℕ, ◌+◌, ◌%◌, ◌^◌, ◌<◌, ◌≤◌, ◌≡◌, ◌≢◌, refl, ap, ◌∙◌, List, [], ◌∷◌, ◌++◌, replicate, Bool, true,
  false, ◌==◌, ltb, leb, go, returned, when, pure, ◌>>=◌, ◌>>◌, arith,
}
use ohos_l0_adapter.Lan9118.Words.{bytes_of, get_bit_field}
use ohos_l0_adapter.Lan9118.Words.Bytes.{bytes_of-append}
use ohos_l0_adapter.Lan9118.Device.{
  Platform, Driver, History, read, tx_fifo_inf, tx_status_port, look, LanError, no_error,
}
use ohos_l0_adapter.Lan9118.Fifo.{
  fill_tx_fifo, tx_command_a, tx_command_b, send_chunk, send_by_chunks,
}
use ohos_l0_adapter.Lan9118.Fifo.Filling.{
  WriteOnly, sent, bytes_at, filler, pushed, push-goes, fill_tx_fifo_lem,
}
use ohos_l0_adapter.Lan9118.Fifo.Commands.{segment-lt, tx_command_a-sum, tx_command_b-sum}

-- The driver takes a chunk of a packet with `total` bytes: the first, or a next one of the packet that it sends.
abbrev pub Takes : ℕ → Bool → Driver → Type 0
Takes total true s = Unit {0}
Takes total false s = (s.ongoing_packet_length ≡ total) × (s.ongoing_packet_length_sent < total)

-- The bytes of the packet that were sent before a chunk.
abbrev pub sent_before : Bool → Driver → ℕ
sent_before true s = 0
sent_before false s = s.ongoing_packet_length_sent

abbrev pub is_last : ℕ → Bool → ℕ → Driver → Bool
is_last total new? size s = (sent_before new? s + size) % 2 ^ 32 == total

abbrev pub opened : ℕ → Bool → Driver → Driver
opened total true s = record s { ongoing_packet_length = total; ongoing_packet_length_sent = 0 }
opened total false s = s

after_commands :
    (ws : List ℕ) (a b : ℕ) (rest : List ℕ)
    → bytes_of ((ws ++ (a ∷ [])) ++ (b ∷ [])) ++ rest
      ≡ bytes_of ws ++ (bytes_of (a ∷ b ∷ []) ++ rest)
after_commands ws a b rest =
    ap (λ c. bytes_of c ++ rest) (append_assoc ws (a ∷ []) (b ∷ []))
    ∙ ap (λ c. c ++ rest) (bytes_of-append ws (a ∷ b ∷ []))
    ∙ append_assoc (bytes_of ws) (bytes_of (a ∷ b ∷ [])) rest

status_looked :
    (env : Platform) (last? : Bool) (m : Driver)
    → (h : History) × (when last? (do look env {R = LanError} tx_status_port; pure tt) m
        ≡ (go tt, record m { history = h }))
      × (sent h ≡ sent m.history)
unfolding look ◌>>=◌
status_looked env true m = (
  (read tx_status_port, env.reply m.history (read tx_status_port) % 2 ^ 32) ∷ m.history,
  refl,
  refl,
)
status_looked env false m = (m.history, refl, refl)

module _ (env : Platform) (size buffer : ℕ) (write_only : WriteOnly env)
    (fits : size < 2 ^ 11) where
  send_chunk-sent :
      (last? first? : Bool) (s : Driver)
      → let (r, t) = send_chunk env last? first? buffer size s in
        (r ≡ returned no_error)
        × (bytes_of (sent t.history)
            ≡ bytes_of (sent s.history)
              ++ (bytes_of (tx_command_a last? first? size ∷ tx_command_b size ∷ [])
                  ++ (replicate (filler size) 0 ++ bytes_at s.memory (buffer + env.pad) size)))
        × (t ≡ record s {
          history = t.history;
          ongoing_packet_length_sent = (s.ongoing_packet_length_sent + size) % 2 ^ 32;
        })
  unfolding send_chunk look ◌>>=◌
  send_chunk-sent last? first? s =
      let m =
        (fill_tx_fifo env {R = LanError} buffer size
          (pushed (tx_command_b size) (pushed (tx_command_a last? first? size) s))).1 in
      let a = tx_command_a last? first? size in
      let b = tx_command_b size in
      let s' = pushed b (pushed a s) in
      let a_fits : a < 2 ^ 32 =
        omega (arith, tx_command_a-sum last? first? size fits, segment-lt last? first?, fits) in
      let b_fits : b < 2 ^ 32 = omega (arith, tx_command_b-sum size fits, fits) in
      let (ends, bytes, same) = fill_tx_fifo_lem env {R = LanError} buffer size s' write_only in
      let (h, looks, kept) = status_looked env last? m in
      simp
        (
          push-goes env write_only {R = LanError} a s a_fits,
          push-goes env write_only {R = LanError} b (pushed a s) b_fits,
          ends,
          looks,
        )
        (
          refl,
          ap bytes_of kept
              ∙ bytes
              ∙ after_commands (sent s.history) a b
                  (replicate (filler size) 0 ++ bytes_at s.memory (buffer + env.pad) size),
          ap {A = Driver} {B = Driver}
              (λ d. record d {
                history = h;
                ongoing_packet_length_sent = (d.ongoing_packet_length_sent + size) % 2 ^ 32;
              })
              same,
        )

-- The space that the chip shows is enough for a chunk.
abbrev pub HasSpace : Platform → ℕ → Type 0
HasSpace env size =
    (h : History) → size ≤ get_bit_field (env.reply h (read tx_fifo_inf) % 2 ^ 32) 0xFFFF 0

-- The state after a look at the space.
abbrev pub seen : Platform → History → Driver → Driver
seen env h d = record d {
  history = (read tx_fifo_inf, env.reply h (read tx_fifo_inf) % 2 ^ 32) ∷ d.history;
}

module _ (env : Platform) (total size buffer : ℕ) (write_only : WriteOnly env)
    (space : HasSpace env size) (fits : size < 2 ^ 11) (some : buffer ≢ 0) where
  not_null : (buffer == 0) ≡ false
  not_null = ground arith

  room :
      (h : History)
      → ltb (get_bit_field (env.reply h (read tx_fifo_inf) % 2 ^ 32) 0xFFFF 0) size ≡ false
  room h = ground (arith, space h)

  -- A chunk that the driver takes, of less than 2048 bytes and for which the chip has space: the FIFO gets
  -- two command words and then zeros and the data, and the number of bytes sent grows by the size.
  pub send_by_chunks_lem :
      (new? : Bool) (s : Driver)
      → Takes total new? s
      → let (r, t) = send_by_chunks env total new? buffer size s in
        (r ≡ returned no_error)
        × (bytes_of (sent t.history)
            ≡ bytes_of (sent s.history)
              ++ (bytes_of
                    (tx_command_a (is_last total new? size s) new? size ∷ tx_command_b size ∷ [])
                  ++ (replicate (filler size) 0 ++ bytes_at s.memory (buffer + env.pad) size)))
        × (t.ongoing_packet_length ≡ total)
        × (t.ongoing_packet_length_sent ≡ (sent_before new? s + size) % 2 ^ 32)
        × (t.memory ≡ s.memory)
  unfolding send_by_chunks look ◌>>=◌
  send_by_chunks_lem true s takes =
      let t = seen env s.history (opened total true s) in
      let (ends, bytes, same) =
        send_chunk-sent env size buffer write_only fits (is_last total true size s) true t in
      simp (not_null, room s.history)
        (
          ends,
          bytes,
          ap (λ d. d.ongoing_packet_length) same,
          ap (λ d. d.ongoing_packet_length_sent) same,
          ap (λ d. d.memory) same,
        )
  send_by_chunks_lem false s (same_packet, open?) =
      let going : leb total s.ongoing_packet_length_sent ≡ false = ground arith in
      let equal : (s.ongoing_packet_length == total) ≡ true = ground (arith, same_packet) in
      let t = seen env s.history s in
      let (ends, bytes, same) =
        send_chunk-sent env size buffer write_only fits (is_last total false size s) false t in
      simp (not_null, equal, going, room s.history)
        (
          ends,
          bytes,
          ap (λ d. d.ongoing_packet_length) same ∙ same_packet,
          ap (λ d. d.ongoing_packet_length_sent) same,
          ap (λ d. d.memory) same,
        )
