-- ===== src/Lan9118/Interface/Start.antt =====
-- How the interface of lan9118_eth_drv.c starts, and what it tells lwIP when it does not.
use ohos_l0_adapter.Base.{
  ℕ, zero, suc, ◌+◌, ◌^◌, ◌%◌, ◌<◌, ◌≤◌, ◌≡◌, ◌≢◌, refl, ◌∙◌, ◌∷◌, some, true, false, ◌==◌, ltb, go,
  returned, ◌>>=◌, ◌-◌, inl, inr, Bool-cases, if◌then◌else◌, arith,
}
use ohos_l0_adapter.Lan9118.Words.{get_bit, set_bit, clr_bit, get_bit_field}
use ohos_l0_adapter.Lan9118.Words.Masks.{get_bit-set_bit, get_bit-clr_bit}
use ohos_l0_adapter.Lan9118.Device.{
  Platform, Driver, Pbuf, tx_fifo_inf, History, Reg, read, write, usleep, irq_status, irq_enable,
  id_revision, mem_malloc, is_link_up, access, look, put, delay_ms, set_bit_of, clr_bit_of,
}
use ohos_l0_adapter.Lan9118.Setup.{
  chip_id, read_id, check_id, lan9118_init, get_interrupt, clear_interrupt, disable_interrupt,
  enable_interrupt,
}
use ohos_l0_adapter.Lan9118.Fifo.{send_by_chunks}
use ohos_l0_adapter.Lan9118.Fifo.Filling.{sent}
use ohos_l0_adapter.Lan9118.Buffers.{payload_addr, total_len}
use ohos_l0_adapter.Lan9118.Interface.{
  err_ok, rx_status_level, is_null, packet_rx, recive_handler, link_out, wait_for_link, set_netif,
  ethernetif_init, copy_nick,
}
use ohos_l0_adapter.Lan9118.Interface.Packets.{Handles, packet_rx-Outcome}

module _ (env : Platform) where
  -- The wait of Lan9118NetInit for the link ends within 101 rounds, whatever lwIP says of the link, and each
  -- round is counted in `overtime`.
  pub wait_for_link-ends :
      (R : Type 0) (n : ℕ) (s : Driver)
      → 0 < n
      → 101 ≤ n + s.overtime
      → s.overtime + n < 2 ^ 32
      → let (r, t) = wait_for_link env {R = R} n s in
        (r ≡ go (some tt)) × (s.overtime < t.overtime) × (t.overtime ≤ s.overtime + n)
  unfolding wait_for_link delay_ms access ◌>>=◌
  wait_for_link-ends R zero s positive enough small = absurd (omega arith)
  wait_for_link-ends R (suc n) s positive enough small =
      let slept = (usleep 60000, env.reply s.history (usleep 60000)) ∷ s.history in
      let up = env.reply slept is_link_up in
      let counted : (s.overtime + 1) % 2 ^ 32 ≡ s.overtime + 1 = omega arith in
      let next : Driver = record s {
        overtime = (s.overtime + 1) % 2 ^ 32;
        history = (is_link_up, up) ∷ slept;
      } in
      elim (Bool-cases (ltb 100 ((s.overtime + 1) % 2 ^ 32))) [
        | inl over ↦ simp over (refl, omega (arith, counted), omega (arith, counted))
        | inr time ↦ elim (Bool-cases (up == 0)) [
          | inl down ↦
              let (ends, more, most) =
                wait_for_link-ends R n next (ground (arith, counted)) (omega (arith, counted))
                  (omega (arith, counted)) in
              simp (time, down) (ends, omega (arith, counted, more), omega (arith, counted, most))
          | inr there ↦ simp (time, there) (refl, omega (arith, counted), omega (arith, counted))
        ]
      ]

  -- Where the chip shows another id than the LAN9118's and lwIP has memory, EthernetifInit reports success, with
  -- nothing set but `state`, `link_layer_type`, `hostname` where that is configured, and the two names: `linkoutput`,
  -- the other output functions, the address, the flags and the driver's state stay as they were.
  pub ethernetif_init-hides :
      (s : Driver)
      → ((h : History) → (env.reply h (read id_revision) % 2 ^ 32 == chip_id) ≡ false)
      → ((h : History) → (env.reply h mem_malloc == 0) ≡ false)
      → let (r, t) = ethernetif_init env s in
        (r ≡ returned err_ok)
        × (t.netif ≡ record s.netif {
          has_state = true;
          has_link_layer_type = true;
          has_hostname = (if env.netif_hostname then true else s.netif.has_hostname);
          name = copy_nick env.name_size s.netif.name;
          full_name = copy_nick env.ifnamsiz s.netif.full_name;
        })
        × (t.state ≡ s.state)
  unfolding ethernetif_init set_netif lan9118_init check_id read_id access look ◌>>=◌
  ethernetif_init-hides s other memory = elim (Bool-cases env.netif_hostname) [
    | inl named ↦ simp (other, memory, named) (refl, refl, refl)
    | inr unnamed ↦ simp (other, memory, unnamed) (refl, refl, refl)
  ]

  -- The register `r` is read and written back, as `word`.
  abbrev pub rewritten : Reg → ℕ → ℕ → History → History
  rewritten r shown word h = (write r word, 0) ∷ (read r, shown) ∷ h

  -- From s to t a receive interrupt is served: its status bit is written back as set and its enable bit as clear, a
  -- packet is handled in the state after that, and then the enable bit is written as set.
  abbrev pub Serves : Type 0 → Driver → Driver → Type 0
  Serves R s t =
      (status : ℕ) × (a : ℕ) × (cleared : ℕ) × (b : ℕ) × (masked : ℕ) × (m : Driver) × (c : ℕ)
      × (enabled : ℕ) × (get_bit cleared rx_status_level ≡ true)
      × (get_bit masked rx_status_level ≡ false)
      × Handles env R
          (record s {
            history =
                rewritten irq_enable b masked
                  (rewritten irq_status a cleared ((read irq_status, status) ∷ s.history));
          })
          m
      × (t ≡ record m { history = rewritten irq_enable c enabled m.history })
      × (get_bit enabled rx_status_level ≡ true)

  set_level : (w : ℕ) → get_bit (set_bit w rx_status_level) rx_status_level ≡ true
  set_level w =
      get_bit-set_bit w rx_status_level rx_status_level (omega arith) (omega arith) ∙ ground arith

  clr_level : (w : ℕ) → get_bit (clr_bit w rx_status_level) rx_status_level ≡ false
  clr_level w =
      get_bit-clr_bit w rx_status_level rx_status_level (omega arith) (omega arith) ∙ ground arith

  -- A receive interrupt that the chip shows is served and then enabled again: the handler clears and masks the
  -- interrupt, then handles one packet, by the size that the FIFO shows and the buffer that lwIP allocates then,
  -- and at last writes the interrupt's enable bit as set, whatever happened to the packet.
  pub recive_handler-Serves :
      (R : Type 0) (s : Driver)
      → get_bit (env.reply s.history (read irq_status) % 2 ^ 32) rx_status_level ≡ true
      → let (r, t) = recive_handler env {R = R} s in (r ≡ go tt) × Serves R s t
  unfolding recive_handler get_interrupt clear_interrupt disable_interrupt enable_interrupt
      set_bit_of clr_bit_of look put ◌>>=◌
  recive_handler-Serves R s pending =
      let status = env.reply s.history (read irq_status) % 2 ^ 32 in
      let looked = (read irq_status, status) ∷ s.history in
      let a = env.reply looked (read irq_status) % 2 ^ 32 in
      let acked = rewritten irq_status a (set_bit a rx_status_level) looked in
      let b = env.reply acked (read irq_enable) % 2 ^ 32 in
      let w : Driver = record s {
        history = rewritten irq_enable b (clr_bit b rx_status_level) acked;
      } in
      let (ends, handles) = packet_rx-Outcome env {R = R} w in
      let m = (packet_rx env {R = R} w).1 in
      let c = env.reply m.history (read irq_enable) % 2 ^ 32 in
      simp (pending, ends)
        (
          refl,
          (
            status,
            a,
            set_bit a rx_status_level,
            b,
            clr_bit b rx_status_level,
            m,
            c,
            set_bit c rx_status_level,
            set_level a,
            clr_level b,
            handles,
            refl,
            set_level c,
          ),
        )

  -- The length that Lan9118LinkOut sends.
  abbrev pub link_length : Pbuf → ℕ
  link_length buf = (total_len buf + 2 ^ 32 - env.pad) % 2 ^ 32

  -- Where the chip has less space than the packet needs, Lan9118LinkOut of a buffer that is not NULL reports
  -- success and gives the chip nothing.
  pub link_out-drops :
      (R : Type 0) (buf : Pbuf) (s : Driver)
      → is_null buf ≡ false
      → payload_addr buf ≢ 0
      → ((h : History)
          → get_bit_field (env.reply h (read tx_fifo_inf) % 2 ^ 32) 0xFFFF 0 < link_length buf)
      → let (r, t) = link_out env {R = R} buf s in
        (r ≡ go err_ok) × (sent t.history ≡ sent s.history)
  unfolding link_out send_by_chunks look access ◌>>=◌
  link_out-drops R buf s given addressed small =
      let length = link_length buf in
      let not_null : (payload_addr buf == 0) ≡ false = ground arith in
      let full : (h : History)
          → ltb (get_bit_field (env.reply h (read tx_fifo_inf) % 2 ^ 32) 0xFFFF 0) length ≡ true =
        λ h. ground (arith, small h) in
      simp (given, not_null, full) (refl, refl)
