-- ===== src/Lan9118/Interface.antt =====
-- The network interface of lan9118_eth_drv.c: packets from and to lwIP, the interrupt handler, and the
-- start of the interface.
pub mod Packets
pub mod Start
use ohos_l0_adapter.Base.{
  ℕ, zero, suc, ◌+◌, ◌-◌, ◌^◌, ◌%◌, List, [], ◌∷◌, Option, none, some, Bool, true, false, not, ◌==◌,
  ltb, if◌then◌else◌, take, drop, ◌++◌, pure, ret, gets, modify, when, branch, invoke, ◌>>=◌, ◌>>◌,
}
use ohos_l0_adapter.Lan9118.Device.{
  Platform, Driver, Netif, M, Fn, Pbuf, task_lock, task_unlock, pbuf_free, input, mem_malloc,
  hwi_create, netif_add, set_default, set_up, is_link_up, tcpip_init, printf, print_err, access,
  delay_ms, is_error,
}
use ohos_l0_adapter.Lan9118.Setup.{
  set_fifo_level_irq, enable_interrupt, disable_interrupt, clear_interrupt, get_interrupt,
  read_mac_address, lan9118_init,
}
use ohos_l0_adapter.Lan9118.Fifo.{peek_next_packet_size, receive_by_chunks, send_by_chunks}
use ohos_l0_adapter.Lan9118.Buffers.{payload_addr, get_len, total_len, set_len, alloc_heap}

-- The codes of lwIP's `err_t` that the driver returns. ERR_OK is 0, and so is `false`.
pub data LwipError : Type 0 where
  err_ok err_mem err_buf : LwipError

-- LAN9118_INTERRUPT_RX_STATUS_FIFO_LEVEL
abbrev pub rx_status_level : ℕ
rx_status_level = 3

-- A buffer is NULL.
abbrev pub is_null : Pbuf → Bool
is_null [] = true
is_null (n ∷ ns) = false

abbrev pub is_ok : LwipError → Bool
is_ok err_ok = true
is_ok e = false

-- LAN9118_NETIF_NICK, with its final NUL.
abbrev pub nick : List ℕ
nick = b'e' ∷ b't' ∷ b'h' ∷ b'0' ∷ 0 ∷ []

-- `memcpy` of LAN9118_NETIF_NICK to an array of `size` bytes: the smaller of the two sizes.
abbrev pub copy_nick : ℕ → List ℕ → List ℕ
copy_nick size old = let n = if ltb size 5 then size else 5 in take n nick ++ drop n old

-- The bytes of an address where they were stored.
abbrev pub given_or : List ℕ → Option (List ℕ) → List ℕ
given_or old none = old
given_or old (some bytes) = bytes

module _ (env : Platform) {R : Type 0} where
  -- `LowLevelInput` with a buffer: the packet, or NULL.
  unfoldable pub receive_into : Pbuf → M R Pbuf
  receive_into p = do
    access env task_lock
    received ← invoke (receive_by_chunks env (payload_addr p) (get_len p))
    branch (received == 0) (do access env (pbuf_free p); access env task_unlock; pure [])
        (do access env task_unlock; pure (set_len p ((received + 2) % 2 ^ 32)))

  -- `LowLevelInput`
  unfoldable pub low_level_input : M R Pbuf
  low_level_input = do
    length ← peek_next_packet_size env
    branch (length == 0) (pure [])
        (do p ← alloc_heap env 1522 4; branch (is_null p) (pure []) (receive_into p))

  -- `Lan9118PacketRx`
  unfoldable pub packet_rx : M R (Unit {0})
  packet_rx = do
    buf ← low_level_input
    when (not (is_null buf)) (do
      access env task_lock
      code ← access env (input buf)
      when (not (code == 0)) (do access env print_err; access env (pbuf_free buf); pure tt)
      access env task_unlock
      pure tt)

  -- `EthernetReciveHandler`
  unfoldable pub recive_handler : M R (Unit {0})
  recive_handler = do
    pending ← get_interrupt env rx_status_level
    when pending (do
      clear_interrupt env rx_status_level
      disable_interrupt env rx_status_level
      packet_rx
      enable_interrupt env rx_status_level)

  unfoldable pub set_netif : (Netif → Netif) → M R (Unit {0})
  set_netif f = modify (λ s. record s { netif = f s.netif })

  -- `Lan9118LinkOut`: the result of the send is not looked at.
  unfoldable pub link_out : Pbuf → M R LwipError
  link_out buf = branch (is_null buf) (pure err_buf) (do
    let length = (total_len buf + 2 ^ 32 - env.pad) % 2 ^ 32
    access env task_lock
    invoke (send_by_chunks env length true (payload_addr buf) length)
    access env task_unlock
    pure err_ok)

  -- One round and more of the wait of `Lan9118NetInit`, on a number of rounds; `none` where it does not suffice.
  unfoldable pub wait_for_link : ℕ → M R (Option (Unit {0}))
  wait_for_link zero = pure none
  wait_for_link (suc n) = do
    delay_ms env 60
    modify (λ s. record s { overtime = (s.overtime + 1) % 2 ^ 32 })
    overtime ← gets (λ s. s.overtime)
    branch (ltb 100 overtime) (do access env print_err; pure (some tt))
        (do up ← access env is_link_up; branch (up == 0) (wait_for_link n) (pure (some tt)))

module _ (env : Platform) where
  -- `LowLevelInit`, without lwIP's multicast filters. ETHARP_HWADDR_LEN is 6.
  unfoldable pub low_level_init : Fn (Unit {0})
  low_level_init = do
    set_netif env (λ n. record n { hwaddr_len = 6 })
    set_netif env (λ n. record n { mtu = 1500 })
    (error, mac) ← invoke (read_mac_address env true)
    when (is_error error) (do access env print_err; ret tt)
    set_netif env (λ n. record n { hwaddr = given_or n.hwaddr mac })
    set_netif env (λ n. record n { has_flags = true })
    ret tt

  -- `EthernetifInit`, for a `netif` that is not NULL. Where lan9118_init fails it returns `false`.
  unfoldable pub ethernetif_init : Fn LwipError
  ethernetif_init = do
    state ← access env mem_malloc
    when (state == 0) (do access env print_err; ret err_mem)
    set_netif env (λ n. record n { has_state = true })
    set_netif env (λ n. record n { has_link_layer_type = true })
    when env.netif_hostname (set_netif env (λ n. record n { has_hostname = true }))
    set_netif env (λ n. record n { name = copy_nick env.name_size n.name })
    set_netif env (λ n. record n { full_name = copy_nick env.ifnamsiz n.full_name })
    error ← invoke (lan9118_init env true)
    when (is_error error) (ret err_ok)
    invoke (set_fifo_level_irq env 0 0)
    invoke (set_fifo_level_irq env 16 0)
    invoke (set_fifo_level_irq env 24 0xFF)
    enable_interrupt env rx_status_level
    access env hwi_create
    when env.lwip_ipv4 (set_netif env (λ n. record n { has_output = true }))
    when env.lwip_ipv6 (set_netif env (λ n. record n { has_output_ip6 = true }))
    set_netif env (λ n. record n { has_linkoutput = true })
    invoke low_level_init
    ret err_ok

  -- `netif_add` of lwIP, which calls `EthernetifInit`; whether its result is NULL.
  unfoldable pub add_netif : Fn Bool
  add_netif = do
    accepted ← access env netif_add
    when (accepted == 0) (ret true)
    code ← invoke ethernetif_init
    branch (is_ok code) (ret false) (ret true)

  -- `Lan9118NetInit`, with enough rounds for its wait.
  unfoldable pub net_init_interface : Fn (Option (Unit {0}))
  net_init_interface = do
    null? ← invoke add_netif
    when null? (do access env print_err; ret (some tt))
    access env set_default
    access env set_up
    waited ← wait_for_link env 101
    overtime ← gets (λ s. s.overtime)
    when (not (ltb 100 overtime)) (do access env printf; pure tt)
    ret waited

  -- `NetInit`
  unfoldable pub net_init : Fn (Option (Unit {0}))
  net_init = do
    access env printf
    access env tcpip_init
    access env printf
    result ← invoke net_init_interface
    ret result
