-- ===== src/Gpio/Interrupts.antt =====
-- Interrupt callbacks of hal_iot_gpio.c: IoTGpioRegisterIsrFunc, IoTGpioUnregisterIsrFunc, and what
-- app_io_callback calls then.
use ohos_l0_adapter.Base.{
  ℕ, ◌<◌, ◌≡◌, refl, ◌∷◌, Option, some, false, set, length, ltb, returned, go, fault, ◌>>=◌,
  Bool-cases, inl, inr, arith, get_elem?-lt, get_elem?-set_self, get_elem?-none, length-set,
}
use ohos_l0_adapter.Gpio.{
  Pins, Enums, success, IoType, IsrInfo, isr, pin_map, mapped, known, at, io_call,
}
use ohos_l0_adapter.Gpio.Isr.{
  store_isr, event_index, call_isr, app_io_callback, configure, iot_gpio_register_isr_func,
  iot_gpio_unregister_isr_func,
}
use ohos_l0_adapter.Gpio.Numbering.{event_index-pin_map}
use ohos_l0_adapter.Gpio.Ports.{IsSized}

module _ (e : Enums) (s : Pins) (sized : IsSized s) (id : ℕ) (is_int : id < 40) (r : IoType × ℕ)
    (is_pin : pin_map id ≡ some r) where
  pub callback-register :
      (int_type polarity f arg : ℕ)
      → let (x, t) = iot_gpio_register_isr_func e id int_type polarity (some f) arg s in
        (x ≡ returned success)
        × ((app_io_callback r.0 (event_index r.0 r.1) t).1.calls ≡ isr f arg ∷ t.calls)
  unfolding iot_gpio_register_isr_func app_io_callback call_isr mapped known at store_isr configure
      io_call ◌>>=◌
  callback-register int_type polarity f arg =
      let inside : ltb 40 id ≡ false = ground arith in
      let traced = event_index-pin_map id r is_int is_pin in
      let bound : id < length s.isr_cfg = omega (arith, sized.isrs) in
      let (old, here) = get_elem?-lt s.isr_cfg id bound in
      let there = λ (v : IsrInfo). get_elem?-set_self s.isr_cfg id v bound in
      let again = λ (v w : IsrInfo).
        get_elem?-set_self (set s.isr_cfg id v) id w (rw (length-set s.isr_cfg id v) bound) in
      elim (Bool-cases old.initialized) [
        | inl was ↦ simp (inside, is_pin, traced, here, there, was) (refl, refl)
        | inr was_not ↦ simp (inside, is_pin, traced, here, there, again, was_not) (refl, refl)
      ]

  -- After the function of a pin below 40 is unregistered, the pin's interrupt calls nothing.
  pub callback-unregister :
      let (x, t) = iot_gpio_unregister_isr_func id s in
      (x ≡ returned success) × (app_io_callback r.0 (event_index r.0 r.1) t ≡ (go tt, t))
  unfolding iot_gpio_unregister_isr_func app_io_callback call_isr mapped known at store_isr
      configure io_call ◌>>=◌
  callback-unregister =
      let inside : ltb 40 id ≡ false = ground arith in
      let traced = event_index-pin_map id r is_int is_pin in
      let bound : id < length s.isr_cfg = omega (arith, sized.isrs) in
      let (old, here) = get_elem?-lt s.isr_cfg id bound in
      let there = λ (v : IsrInfo). get_elem?-set_self s.isr_cfg id v bound in
      let again = λ (v w : IsrInfo).
        get_elem?-set_self (set s.isr_cfg id v) id w (rw (length-set s.isr_cfg id v) bound) in
      elim (Bool-cases old.initialized) [
        | inl was ↦ simp (inside, is_pin, traced, here, there, was) (refl, refl)
        | inr was_not ↦ simp (inside, is_pin, traced, here, there, again, was_not) (refl, refl)
      ]

-- Pin 40 passes the test of the number but has no entry: registering a function for it is undefined
-- behaviour.
pub register-beyond :
    (e : Enums) (s : Pins)
    → IsSized s
    → (int_type polarity : ℕ) (f : Option ℕ) (arg : ℕ)
    → ((iot_gpio_register_isr_func e 40 int_type polarity f arg s).0 ≡ fault)
      × ((iot_gpio_unregister_isr_func 40 s).0 ≡ fault)
unfolding iot_gpio_register_isr_func iot_gpio_unregister_isr_func pin_map mapped known at ◌>>=◌
register-beyond e s sized int_type polarity f arg =
    let missing = get_elem?-none s.isr_cfg 40 (omega (arith, sized.isrs)) in
    simp missing (refl, refl)
