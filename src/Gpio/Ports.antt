-- ===== src/Gpio/Ports.antt =====
-- Directions and outputs of hal_iot_gpio.c: which numbers are pins, and what is read back.
use ohos_l0_adapter.Base.{
  ℕ, ◌-◌, ◌^◌, ◌%◌, ◌<◌, ◌≤◌, ◌≡◌, ◌≢◌, refl, sym, none, some, true, false, get_elem?, length, ltb,
  leb, ◌==◌, if◌then◌else◌, returned, fault, ◌>>=◌, Bool-cases, Option-cases, inl, inr, arith,
  get_elem?-lt, get_elem?-set_self, get_elem?-set_ne, get_elem?-none,
}
use ohos_l0_adapter.Gpio.{
  Pins, Enums, success, failure, IoType, normal, aon, msio, pin_map, mapped, known, at, store_dir,
  store_out, io_call, iot_gpio_get_dir, iot_gpio_get_output_val, iot_gpio_set_dir,
  iot_gpio_set_output_val,
}

-- The arrays have the lengths that hal_iot_gpio.c declares.
pub record IsSized (s : Pins) : Type 0 where
  pub dirs : length s.dir ≡ 45
  pub outs : length s.out ≡ 45
  pub isrs : length s.isr_cfg ≡ 40

-- A number below 45 is a pin.
pub pin_map-some : (id : ℕ) → id < 45 → (r : IoType × ℕ) × (pin_map id ≡ some r)
unfolding pin_map
pin_map-some id h = elim (Bool-cases (leb id 31)) [
  | inl n ↦ ((normal, 2 ^ id), rw n refl)
  | inr n ↦ elim (Bool-cases (leb id 39)) [
    | inl a ↦ ((aon, 2 ^ (id - 32)), simp (n, a))
    | inr a ↦ (let m : leb id 44 ≡ true = ground arith in ((msio, 2 ^ (id - 40)), simp (n, a, m)))
  ]
]

module _ (e : Enums) (s : Pins) (sized : IsSized s) where
  -- For a number below 45, what IoTGpioSetDir sets, IoTGpioGetDir reads back, cut to a byte, and no other pin's direction changes.
  pub get_dir-set_dir :
      (id dir : ℕ)
      → id < 45
      → let (r, t) = iot_gpio_set_dir e id dir s in
        (r ≡ returned success)
        × ((iot_gpio_get_dir id t).0 ≡ returned (success, some (dir % 256)))
        × ((other : ℕ) → other ≢ id → (iot_gpio_get_dir other t).0 ≡ (iot_gpio_get_dir other s).0)
  unfolding iot_gpio_set_dir iot_gpio_get_dir mapped known at store_dir io_call ◌>>=◌
  get_dir-set_dir id dir h =
      let (io, is_pin) = pin_map-some id h in
      let inside : ltb 45 id ≡ false = ground arith in
      let (old, here) = get_elem?-lt s.dir id (omega (arith, sized.dirs)) in
      let there = get_elem?-set_self s.dir id (dir % 256) (omega (arith, sized.dirs)) in
      simp (is_pin, inside, here, there)
        (
          refl,
          refl,
          λ other differs.
              let apart =
                get_elem?-set_ne s.dir id other (dir % 256) (λ same. differs (sym same)) in
              elim (Bool-cases (ltb 45 other)) [
                | inl beyond ↦ simp beyond
                | inr within ↦ elim (Option-cases (get_elem? s.dir other)) [
                  | inl missing ↦ simp (within, apart, missing)
                  | inr (v, held) ↦ simp (within, apart, held)
                ]
              ],
        )

  -- For a number below 45, what IoTGpioSetOutputVal sets, IoTGpioGetOutputVal reads back, cut to a byte.
  pub get_output_val-set_output_val :
      (id val : ℕ)
      → id < 45
      → let (r, t) = iot_gpio_set_output_val e id val s in
        (r ≡ returned success)
        × ((iot_gpio_get_output_val id t).0 ≡ returned (success, some (val % 256)))
  unfolding iot_gpio_set_output_val iot_gpio_get_output_val mapped known at store_out io_call ◌>>=◌
  get_output_val-set_output_val id val h =
      let (io, is_pin) = pin_map-some id h in
      let inside : ltb 45 id ≡ false = ground arith in
      let (old, here) = get_elem?-lt s.out id (omega (arith, sized.outs)) in
      let there = get_elem?-set_self s.out id (val % 256) (omega (arith, sized.outs)) in
      elim (Bool-cases (val == e.value0)) [
        | inl zero_val ↦ simp (is_pin, inside, here, there, zero_val) (refl, refl)
        | inr not_zero ↦ elim (Bool-cases (val == e.value1)) [
          | inl one_val ↦ simp (is_pin, inside, here, there, not_zero, one_val) (refl, refl)
          | inr not_one ↦ simp (is_pin, inside, here, there, not_zero, not_one) (refl, refl)
        ]
      ]

  at_45 :
      (v : ℕ)
      → ((iot_gpio_set_dir e 45 v s).0 ≡ fault)
        × ((iot_gpio_get_dir 45 s).0 ≡ fault)
        × ((iot_gpio_set_output_val e 45 v s).0 ≡ fault)
        × ((iot_gpio_get_output_val 45 s).0 ≡ fault)
  unfolding iot_gpio_set_dir iot_gpio_get_dir iot_gpio_set_output_val iot_gpio_get_output_val
      pin_map mapped known at ◌>>=◌
  at_45 v =
      let no_dir = get_elem?-none s.dir 45 (omega (arith, sized.dirs)) in
      let no_out = get_elem?-none s.out 45 (omega (arith, sized.outs)) in
      simp (no_dir, no_out) (refl, refl, refl, refl)

  -- Above 45 the four accesses to a pin's direction and output fail, and 45 itself, which passes the test of
  -- the number, is no pin: the behaviour is undefined.
  pub bounds_lem :
      (id v : ℕ)
      → 45 ≤ id
      → ((iot_gpio_set_dir e id v s).0 ≡ (if id == 45 then fault else returned failure))
        × ((iot_gpio_get_dir id s).0 ≡ (if id == 45 then fault else returned (failure, none)))
        × ((iot_gpio_set_output_val e id v s).0 ≡ (if id == 45 then fault else returned failure))
        × ((iot_gpio_get_output_val id s).0
            ≡ (if id == 45 then fault else returned (failure, none)))
  unfolding iot_gpio_set_dir iot_gpio_get_dir iot_gpio_set_output_val iot_gpio_get_output_val ◌>>=◌
  bounds_lem id v h = elim (Bool-cases (ltb 45 id)) [
    | inl beyond ↦
        (let apart : (id == 45) ≡ false = ground arith in
          simp (beyond, apart) (refl, refl, refl, refl))
    | inr bound ↦ (let same : id ≡ 45 = ground arith in rw same (at_45 v))
  ]
