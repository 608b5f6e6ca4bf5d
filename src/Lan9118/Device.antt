-- ===== src/Lan9118/Device.antt =====
-- The registers of the LAN9118 and the state of its driver, as lan9118_eth_drv.h and the first part of
-- lan9118_eth_drv.c lay them out, and the accesses that the driver's functions make.
use ohos_l0_adapter.Base.{
  ℕ, ◌*◌, ◌^◌, ◌%◌, ◌∷◌, List, Bool, true, false, Proc, go, ◌==◌, if◌then◌else◌, gets, when, ◌>>=◌,
  ◌>>◌,
}
use ohos_l0_adapter.Lan9118.Words.{set_bit, clr_bit, set_bit_field, clr_bit_field}

-- `struct lan9118_eth_reg_map_t`, without the reserved words.
pub data Reg : Type 0 where
  rx_data_port tx_data_port rx_status_port rx_status_peek tx_status_port tx_status_peek : Reg
  id_revision irq_cfg irq_status irq_enable byte_test fifo_level_irq : Reg
  rx_cfg tx_cfg hw_cfg rx_datapath_ctrl rx_fifo_inf tx_fifo_inf : Reg
  pmt_ctrl gpio_cfg gptimer_cfg gptimer_count word_swap free_run_counter rx_dropped_frames : Reg
  mac_csr_cmd mac_csr_data afc_cfg eeprom_cmd eeprom_data : Reg

-- `enum lan9118_error_t`
pub data LanError : Type 0 where
  no_error timeout busy param internal : LanError

-- An error code as a C condition.
abbrev pub is_error : LanError → Bool
is_error no_error = false
is_error e = true

-- One node of an lwIP packet buffer, `struct pbuf`, by its payload's address.
pub record Node : Type 0 where
  pub payload : ℕ
  pub len : ℕ
  pub tot_len : ℕ

-- A packet buffer: its nodes in the order of the `next` fields. A list without nodes is NULL.
abbrev pub Pbuf : Type 0
Pbuf = List Node

-- An access to the chip, or a call into the C library, the kernel or lwIP.
pub data Access : Type 0 where
  read : Reg → Access
  write : Reg → ℕ → Access
  usleep : ℕ → Access
  task_lock task_unlock : Access
  pbuf_alloc : ℕ → Access
  pbuf_free : Pbuf → Access
  input : Pbuf → Access
  mem_malloc hwi_create netif_add set_default set_up is_link_up tcpip_init : Access
  printf print_err : Access

abbrev pub History : Type 0
History = List (Access × ℕ)

-- What the chip shows and what the called functions answer, the accesses so far given, the latest first:
-- the word read, a buffer, the result of a call. Of lwIP's configuration: `pad` is ETH_PAD_SIZE, `name_size` and
-- `ifnamsiz` are the sizes of a netif's `name` and `full_name`, and the options LWIP_NETIF_HOSTNAME, LWIP_IPV4
-- and LWIP_IPV6.
pub record Platform : Type 0 where
  pub reply : History → Access → ℕ
  pub alloc : History → ℕ → Pbuf
  pub pad : ℕ
  pub name_size : ℕ
  pub ifnamsiz : ℕ
  pub netif_hostname : Bool
  pub lwip_ipv4 : Bool
  pub lwip_ipv6 : Bool

-- The fields of lwIP's `struct netif` that the driver sets: of a field that it sets to one constant, whether that is
-- done, and the others by their values.
pub record Netif : Type 0 where
  pub has_state : Bool
  pub has_link_layer_type : Bool
  pub has_hostname : Bool
  pub name : List ℕ
  pub full_name : List ℕ
  pub has_output : Bool
  pub has_output_ip6 : Bool
  pub has_linkoutput : Bool
  pub has_flags : Bool
  pub hwaddr_len : ℕ
  pub mtu : ℕ
  pub hwaddr : List ℕ

-- `struct lan9118_eth_dev_data_t`, whether `wait_ms` is set in it, `g_NetIf`, the static `overtime` of
-- Lan9118NetInit, the bytes of memory, and the accesses made, the latest first.
pub record Driver : Type 0 where
  pub state : ℕ
  pub wait_ms : Bool
  pub ongoing_packet_length : ℕ
  pub ongoing_packet_length_sent : ℕ
  pub current_rx_size_words : ℕ
  pub netif : Netif
  pub overtime : ℕ
  pub memory : ℕ → ℕ
  pub history : History

abbrev pub M : Type 0 → Type 0 → Type 0
M R A = Proc Driver R A

-- A function of the driver that returns an `A`.
abbrev pub Fn : Type 0 → Type 0
Fn A = Proc Driver A A

-- A write to one byte of memory.
abbrev pub store : ℕ → ℕ → (ℕ → ℕ) → ℕ → ℕ
store address v memory a = if a == address then v else memory a

module _ (env : Platform) {R : Type 0} where
  unfoldable pub access : Access → M R ℕ
  access c s = let v = env.reply s.history c in (go v, record s { history = (c, v) ∷ s.history })

  -- A read of a 32-bit register.
  unfoldable pub look : Reg → M R ℕ
  look r s =
      let v = env.reply s.history (read r) % 2 ^ 32 in
      (go v, record s { history = (read r, v) ∷ s.history })

  unfoldable pub put : Reg → ℕ → M R (Unit {0})
  put r v s = (go tt, record s { history = (write r v, 0) ∷ s.history })

  -- The macros on a register, which read it and write it.
  unfoldable pub set_bit_of : Reg → ℕ → M R (Unit {0})
  set_bit_of r index = do w ← look r; put r (set_bit w index)

  unfoldable pub clr_bit_of : Reg → ℕ → M R (Unit {0})
  clr_bit_of r index = do w ← look r; put r (clr_bit w index)

  unfoldable pub set_field_of : Reg → ℕ → ℕ → ℕ → M R (Unit {0})
  set_field_of r mask offset value = do w ← look r; put r (set_bit_field w mask offset value)

  unfoldable pub clr_field_of : Reg → ℕ → ℕ → ℕ → M R (Unit {0})
  clr_field_of r mask offset value = do w ← look r; put r (clr_bit_field w mask offset value)

  -- `DelayMs`
  unfoldable pub delay_ms : ℕ → M R ℕ
  delay_ms ms = access (usleep ((1000 * ms) % 2 ^ 32))

  -- `if (dev->data->wait_ms) { dev->data->wait_ms(ms); }`: the function set is `DelayMs`.
  unfoldable pub wait : ℕ → M R (Unit {0})
  wait ms = do set? ← gets (λ s. s.wait_ms); when set? (do delay_ms ms; gets (λ s. tt))
