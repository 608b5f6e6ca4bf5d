-- ===== src/Tests/Ethernet.antt =====
-- The Ethernet driver on concrete chips.
use ohos_l0_adapter.Base.{
  ℕ, suc, ◌+◌, ◌*◌, ◌%◌, ◌^◌, ◌<◌, ◌≤◌, ◌≡◌, refl, ◌⊎◌, List, [], ◌∷◌, ◌++◌, drop, length,
  replicate, true, false, go, returned, arith,
}
use ohos_l0_adapter.Lan9118.Words.{bytes_of}
use ohos_l0_adapter.Lan9118.Device.{
  Platform, Driver, Netif, Node, History, Access, read, tx_fifo_inf, rx_fifo_inf, rx_status_port,
  rx_status_peek, irq_status, mac_csr_cmd, mac_csr_data, mem_malloc, LanError, no_error, busy,
  timeout,
}
use ohos_l0_adapter.Lan9118.Mac.{mac_regread, mac_regwrite}
use ohos_l0_adapter.Lan9118.Mac.Registers.{
  csr_busy, looked, shown, round, begun, waited, StaysBusy, mac_regread_lem,
}
use ohos_l0_adapter.Lan9118.Mac.Writes.{write_begun, write_waited, mac_regwrite-early}
use ohos_l0_adapter.Lan9118.Setup.{lan9118_init}
use ohos_l0_adapter.Lan9118.Setup.Ends.{lan9118_init-ends}
use ohos_l0_adapter.Lan9118.Setup.States.{InitEnd, lan9118_init-InitEnd}
use ohos_l0_adapter.Lan9118.Fifo.{tx_command_a, tx_command_b, send_by_chunks, receive_by_chunks}
use ohos_l0_adapter.Lan9118.Fifo.Filling.{sent, bytes_at, filler}
use ohos_l0_adapter.Lan9118.Fifo.Emptying.{popped, Outside}
use ohos_l0_adapter.Lan9118.Fifo.Receiving.{receive_by_chunks_lem}
use ohos_l0_adapter.Lan9118.Fifo.Packets.{
  taken, send_by_chunks-taken, stream, send_all, send_all-sent,
}
use ohos_l0_adapter.Lan9118.Buffers.{align_memory}
use ohos_l0_adapter.Lan9118.Buffers.Lengths.{IsTotal}
use ohos_l0_adapter.Lan9118.Buffers.Alignment.{Aligned, Each, align_memory-Aligned}
use ohos_l0_adapter.Lan9118.Interface.{err_ok, packet_rx, recive_handler, ethernetif_init}
use ohos_l0_adapter.Lan9118.Interface.Packets.{Handles, packet_rx-Outcome}
use ohos_l0_adapter.Lan9118.Interface.Start.{Serves, ethernetif_init-hides, recive_handler-Serves}

-- A chip with a packet of 6 bytes, space for 4096, and a pending receive interrupt.
abbrev shows : Access → ℕ
shows (read rx_fifo_inf) = 8
shows (read rx_status_port) = 6 * 2 ^ 16
shows (read rx_status_peek) = 6 * 2 ^ 16
shows (read tx_fifo_inf) = 4096
shows (read irq_status) = 8
shows mem_malloc = 1
shows c = 0

abbrev node : Node
node = record { payload = 0x2002; len = 1526; tot_len = 1526 }

abbrev with_packet : Platform
with_packet = record {
  reply = λ h c. shows c;
  alloc = λ h n. node ∷ [];
  pad = 2;
  name_size = 2;
  ifnamsiz = 16;
  netif_hostname = true;
  lwip_ipv4 = true;
  lwip_ipv6 = false;
}

-- A chip that stays busy from its first operation on, and shows a command word with a clear bit 0.
abbrev stays_busy : History → ℕ
stays_busy [] = 6
stays_busy (e ∷ h) = 0x80000006

abbrev slow_shows : History → Access → ℕ
slow_shows h (read mac_csr_cmd) = stays_busy h
slow_shows h c = 0

abbrev slow : Platform
slow = record with_packet { reply = slow_shows }

abbrev netif : Netif
netif = record {
  has_state = false;
  has_link_layer_type = false;
  has_hostname = false;
  name = 0 ∷ 0 ∷ [];
  full_name = replicate 16 0;
  has_output = false;
  has_output_ip6 = false;
  has_linkoutput = false;
  has_flags = false;
  hwaddr_len = 0;
  mtu = 0;
  hwaddr = [];
}

abbrev idle : Driver
idle = record {
  state = 0;
  wait_ms = true;
  ongoing_packet_length = 0;
  ongoing_packet_length_sent = 0;
  current_rx_size_words = 0;
  netif = netif;
  overtime = 0;
  memory = λ a. a % 256;
  history = [];
}

mac_regread_lem_example :
    ((csr_busy with_packet idle ≡ true)
      × (mac_regread with_packet 1 7 idle
          ≡ (returned (busy, 7), looked with_packet mac_csr_cmd idle)))
    ⊎ (((k : ℕ) × (k < 49)
          × StaysBusy with_packet k (begun with_packet 1 idle)
          × (csr_busy with_packet
                (round with_packet (waited with_packet k (begun with_packet 1 idle)))
              ≡ false)
          × (let t = waited with_packet (suc k) (begun with_packet 1 idle) in
              mac_regread with_packet 1 7 idle ≡ (
                returned (no_error, shown with_packet mac_csr_data t),
                looked with_packet mac_csr_data t,
              )))
        ⊎ (StaysBusy with_packet 49 (begun with_packet 1 idle)
            × (mac_regread with_packet 1 7 idle ≡ (
              returned (timeout, 7),
              round with_packet (waited with_packet 49 (begun with_packet 1 idle)),
            ))))
mac_regread_lem_example = mac_regread_lem with_packet 1 7 idle

even_word : (h : History) → (stays_busy h % 2 ^ 32) % 2 ≡ 0
even_word [] = refl
even_word (e ∷ h) = refl

mac_regwrite-early_example :
    mac_regwrite slow 6 5 idle
    ≡ (returned no_error, write_waited slow 1 (write_begun slow 6 5 idle))
mac_regwrite-early_example = mac_regwrite-early slow 6 5 idle refl (λ t. even_word t.history)

lan9118_init-ends_example :
    let (x, t) = lan9118_init slow true idle in
    (e : LanError) × (x ≡ returned e) × (length t.history ≤ 0 + 80000)
lan9118_init-ends_example = lan9118_init-ends slow true idle

lan9118_init-InitEnd_example : InitEnd 0 (lan9118_init slow true idle)
lan9118_init-InitEnd_example = lan9118_init-InitEnd slow true idle

send_by_chunks-taken_example :
    let (r, t) = send_by_chunks with_packet 8 true 0x2002 8 idle in
    let packet = bytes_at (λ a. a % 256) 0x2004 8 in
    let cmd = tx_command_a true true 8 in
    (r ≡ returned no_error)
    × ((bytes : List ℕ) × (bytes_of (sent t.history)
          ≡ bytes_of (cmd ∷ tx_command_b 8 ∷ []) ++ bytes)
        × (taken cmd bytes ≡ drop 4 packet))
send_by_chunks-taken_example =
    send_by_chunks-taken with_packet 8 0x2002 (λ h. refl) (λ h. omega arith) (omega arith)
      (λ e. absurd (omega arith)) idle

send_all-sent_example :
    let (r, t) = send_all with_packet 10 true ((0x2002, 6) ∷ (0x3002, 4) ∷ []) idle in
    (r ≡ returned no_error)
    × (bytes_of (sent t.history)
        ≡ stream with_packet (λ a. a % 256) 10 0 true ((0x2002, 6) ∷ (0x3002, 4) ∷ []))
    × (t.ongoing_packet_length_sent ≡ 10)
send_all-sent_example =
    send_all-sent with_packet (λ h. refl) 10 (omega arith) 0x2002 6 ((0x3002, 4) ∷ []) idle
      (
        (λ e. absurd (omega arith)),
        omega arith,
        omega arith,
        (λ h. omega arith),
        ((λ e. absurd (omega arith)), omega arith, omega arith, (λ h. omega arith), tt),
      )
      refl

receive_by_chunks_lem_example :
    let (r, t) = receive_by_chunks with_packet 0x2002 4 idle in
    (n : ℕ) × (r ≡ returned n)
    × (n < 2 ^ 14)
    × ((rest : List ℕ) × (length rest ≡ filler n)
        × (bytes_of (popped t.history) ≡ bytes_at t.memory 0x2004 n ++ rest))
    × ((x : ℕ) → Outside 0x2004 n x → t.memory x ≡ x % 256)
    × (t.current_rx_size_words ≡ 0)
receive_by_chunks_lem_example =
    receive_by_chunks_lem with_packet 0x2002 4 idle (λ e. absurd (omega arith))

align_memory-Aligned_example :
    Each (Aligned 4) (node ∷ []) (align_memory (node ∷ []) 4) × IsTotal (align_memory (node ∷ []) 4)
align_memory-Aligned_example =
    align_memory-Aligned 4 (node ∷ []) (omega arith) (omega arith, omega arith, tt)

packet_rx-Outcome_example :
    let (r, t) = packet_rx with_packet {R = ℕ} idle in (r ≡ go tt) × Handles with_packet ℕ idle t
packet_rx-Outcome_example = packet_rx-Outcome with_packet {R = ℕ} idle

ethernetif_init-hides_example :
    let (r, t) = ethernetif_init with_packet idle in
    (r ≡ returned err_ok)
    × (t.netif ≡ record netif {
      has_state = true;
      has_link_layer_type = true;
      has_hostname = true;
      name = b'e' ∷ b't' ∷ [];
      full_name = b'e' ∷ b't' ∷ b'h' ∷ b'0' ∷ replicate 12 0;
    })
    × (t.state ≡ 0)
ethernetif_init-hides_example = ethernetif_init-hides with_packet idle (λ h. refl) (λ h. refl)

recive_handler-Serves_example :
    let (r, t) = recive_handler with_packet {R = ℕ} idle in
    (r ≡ go tt) × Serves with_packet ℕ idle t
recive_handler-Serves_example = recive_handler-Serves with_packet ℕ idle refl
