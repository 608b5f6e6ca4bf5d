-- ===== src/I2c/Transfers.antt =====
-- Transfers and bus numbers of hal_iot_i2c.c.
use ohos_l0_adapter.Base.{
  ℕ, ℤ, ap, sym, ◌≤◌, List, ◌∷◌, map, some, ◌≡◌, refl, false, is_zero, returned, fault, ◌>>=◌,
  get_elem?, length, ltb, arith, if◌then◌else◌, Bool-cases, ◌⊎◌, inl, inr, get_elem?-none,
}
use ohos_l0_adapter.I2c.{
  Chip, Buses, BusCall, History, mux_pend, mux_post, transmit_sync, receive_sync, success, failure,
  element, bus_call, iot_i2c_write, iot_i2c_read,
}

-- The calls of a history, the latest first.
abbrev pub calls_of : History → List BusCall
calls_of h = map (λ e. e.0) h

module _ (chip : Chip) (s : Buses) (id addr len m : ℕ) where
  -- A write to a bus with a mutex, up to the largest number that the test lets pass, takes the bus's transmit
  -- mutex before the library's transfer and releases it after, whether the transfer succeeds or fails, and
  -- succeeds where the transfer returned 0 and fails where it did not.
  pub iot_i2c_write-mutex :
      (bytes : List ℕ)
      → id ≤ chip.id_max
      → get_elem? s.tx_mutex id ≡ some m
      → let (r, t) = iot_i2c_write chip id addr bytes len s in
        (code : ℤ) × (pended : ℤ) × (posted : ℤ) × (t.history
          ≡ (mux_post m, posted)
            ∷ (transmit_sync id addr bytes len, code)
            ∷ (mux_pend m, pended)
            ∷ s.history)
        × (r ≡ returned (if is_zero code then success else failure))
  unfolding iot_i2c_write element bus_call ◌>>=◌
  iot_i2c_write-mutex bytes bound here =
      let inside : ltb chip.id_max id ≡ false = ground arith in
      let h = (mux_pend m, chip.reply s.history (mux_pend m)) ∷ s.history in
      elim (Bool-cases (is_zero (chip.reply h (transmit_sync id addr bytes len)))) [
        | inl sent ↦
            simp (inside, here, sent)
              (_, _, _, refl, ap (λ b. returned (if b then success else failure)) (sym sent))
        | inr fails ↦
            simp (inside, here, fails)
              (_, _, _, refl, ap (λ b. returned (if b then success else failure)) (sym fails))
      ]

  -- A read takes and releases the receive mutex in the same way.
  pub iot_i2c_read-mutex :
      get_elem? s.rx_mutex id ≡ some m
      → let (r, t) = iot_i2c_read chip id addr len s in
        ((r ≡ returned success) ⊎ (r ≡ returned failure))
        × (calls_of t.history
            ≡ mux_post m ∷ receive_sync id addr len ∷ mux_pend m ∷ calls_of s.history)
  unfolding iot_i2c_read element bus_call ◌>>=◌
  iot_i2c_read-mutex here =
      let h = (mux_pend m, chip.reply s.history (mux_pend m)) ∷ s.history in
      elim (Bool-cases (is_zero (chip.reply h (receive_sync id addr len)))) [
        | inl sent ↦ simp (here, sent) (inl refl, refl)
        | inr fails ↦ simp (here, fails) (inr refl, refl)
      ]

  -- Where the mutexes have the length APP_I2C_ID_MAX, and for a bus number that is no index of them: a read of it is undefined behaviour, and so is a write of
  -- APP_I2C_ID_MAX itself, which passes the test, while a write beyond it fails.
  pub bus_bounds :
      (bytes : List ℕ)
      → length s.tx_mutex ≡ chip.id_max
      → length s.rx_mutex ≡ chip.id_max
      → chip.id_max ≤ id
      → ((iot_i2c_read chip id addr len s).0 ≡ fault)
        × ((iot_i2c_write chip id addr bytes len s).0
            ≡ (if ltb chip.id_max id then returned failure else fault))
  unfolding iot_i2c_read iot_i2c_write element ◌>>=◌
  bus_bounds bytes tx rx beyond =
      let no_rx = get_elem?-none s.rx_mutex id (omega (arith, rx)) in
      let no_tx = get_elem?-none s.tx_mutex id (omega (arith, tx)) in
      elim (Bool-cases (ltb chip.id_max id)) [
        | inl far ↦ simp (far, no_rx) (refl, refl)
        | inr at_max ↦ simp (at_max, no_rx, no_tx) (refl, refl)
      ]
