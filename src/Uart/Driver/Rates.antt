-- ===== src/Uart/Driver/Rates.antt =====
-- The rate and the clock of the port (arm_uart_init, arm_uart_set_baudrate, arm_uart_set_clock).
use ohos_l0_adapter.Base.{
  ℕ, ◌/◌, zero, suc, ◌<◌, ◌≤◌, List, [], ◌∷◌, ◌≡◌, ◌≢◌, refl, ◌⊎◌, inl, inr, Bool, true, false,
  Flow, go, returned, fault, ◌>>=◌, ltb, ◌==◌, ==_iff, if◌then◌else◌, Bool-cases, arith,
}
use ohos_l0_adapter.Uart.Device.{Error, invalid_baud, Device}
use ohos_l0_adapter.Uart.Driver.{
  is_initialized, divide, arm_uart_init, arm_uart_set_baudrate, arm_uart_get_baudrate,
  arm_uart_set_clock,
}

-- An initialised port has a rate.
abbrev pub HasRate : Device → Type 0
HasRate d = is_initialized d ≡ true → d.baudrate ≢ 0

-- A request to the driver that changes its rate, its clock or its state.
pub data Request : Type 0 where
  init set_baudrate set_clock : ℕ → Request

unfoldable pub serve : Request → Device → Flow Error Error × Device
serve (init clk) = arm_uart_init clk
serve (set_baudrate rate) = arm_uart_set_baudrate rate
serve (set_clock clk) = arm_uart_set_clock clk

divide-nonzero : (a b : ℕ) (d : Device) → b ≢ 0 → divide {R = Error} a b d ≡ (go (a / b), d)
unfolding divide ohos_l0_adapter.Base.pure
divide-nonzero a zero d h = absurd (h refl)
divide-nonzero a (suc b) d h = refl

-- A request to a port with a non-zero default rate never divides by zero, and an initialised port has
-- a rate after it if it had one before.
pub serve-HasRate :
    (r : Request) (d : Device)
    → d.default_baudrate ≢ 0
    → HasRate d
    → let (x, t) = serve r d in (x ≢ fault) × HasRate t × (t.default_baudrate ≡ d.default_baudrate)
unfolding serve arm_uart_init arm_uart_set_baudrate arm_uart_set_clock ◌>>=◌
serve-HasRate (init clk) d some_rate h = elim (Bool-cases (clk == 0)) [
  | inl stopped ↦ simp stopped ((λ e. cc), h, refl)
  | inr runs ↦
      simp (runs, divide-nonzero clk d.default_baudrate _ some_rate)
        ((λ e. cc), (λ i. some_rate), refl)
]
serve-HasRate (set_baudrate rate) d some_rate h = elim (Bool-cases (rate == 0)) [
  | inl none_given ↦ simp none_given ((λ e. cc), h, refl)
  | inr given ↦
      (let nonzero : rate ≢ 0 = ground arith in
        elim (Bool-cases (is_initialized d)) [
          | inl ready ↦ elim (Bool-cases (ltb (d.system_clk / rate) 16)) [
            | inl small ↦
                simp (given, ready, divide-nonzero d.system_clk rate d nonzero, small)
                  ((λ e. cc), (λ i. nonzero), refl)
            | inr enough ↦
                simp (given, ready, divide-nonzero d.system_clk rate d nonzero, enough)
                  ((λ e. cc), (λ i. nonzero), refl)
          ]
          | inr not_ready ↦ simp (given, not_ready) ((λ e. cc), (λ i z. cc), refl)
        ])
]
serve-HasRate (set_clock clk) d some_rate h = elim (Bool-cases (clk == 0)) [
  | inl stopped ↦ simp stopped ((λ e. cc), h, refl)
  | inr runs ↦ elim (Bool-cases (is_initialized d)) [
    | inl ready ↦
        simp (runs, ready, divide-nonzero clk d.baudrate _ (h ready))
          ((λ e. cc), (λ i. h ready), refl)
    | inr not_ready ↦ simp (runs, not_ready) ((λ e. cc), (λ i z. cc), refl)
  ]
]

-- On an initialised port, a rate other than 0 is recorded whether it is set or not: where the divider
-- would be below 16 the call fails and leaves the divider, yet arm_uart_get_baudrate reports the rate
-- that was refused.
pub arm_uart_set_baudrate_lem :
    (d : Device) (rate : ℕ)
    → is_initialized d ≡ true
    → rate ≢ 0
    → let (x, t) = arm_uart_set_baudrate rate d in
      let small = ltb (d.system_clk / rate) 16 in
      (x ≡ returned (if small then invalid_baud else Error.none))
      × (t.bauddiv ≡ (if small then d.bauddiv else d.system_clk / rate))
      × ((arm_uart_get_baudrate t).0 ≡ returned rate)
unfolding arm_uart_set_baudrate arm_uart_get_baudrate ◌>>=◌
arm_uart_set_baudrate_lem d rate ready some_rate =
    let given : (rate == 0) ≡ false = ground arith in
    elim (Bool-cases (ltb (d.system_clk / rate) 16)) [
      | inl small ↦
          simp (given, ready, divide-nonzero d.system_clk rate d some_rate, small)
            (refl, refl, refl)
      | inr enough ↦
          simp (given, ready, divide-nonzero d.system_clk rate d some_rate, enough)
            (refl, refl, refl)
    ]
