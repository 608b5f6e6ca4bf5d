-- ===== src/Gpio/Numbering.antt =====
-- Pin numbers and the masks of the chip's library (pin_map, get_pin_index and app_io_callback of
-- hal_iot_gpio.c).
use ohos_l0_adapter.Base.{
  ℕ, zero, suc, ◌+◌, ◌-◌, ◌*◌, ◌/◌, ◌%◌, ◌^◌, ◌<◌, ◌≡◌, ◌≢◌, sym, ◌∙◌, ap, some, true, false, leb,
  ◌==◌, Bool-cases, inl, inr, arith,
}
use mathlib.Core.Option.{some-injective}
use native.Mathlib.Nat.{pow-suc}
use ohos_l0_adapter.Gpio.{IoType, normal, aon, pin_map, get_pin_index}
use ohos_l0_adapter.Gpio.Isr.{event_index}

get_pin_index-pow :
    (k fuel index : ℕ) → k < fuel → get_pin_index fuel (2 ^ k) index ≡ some (index + k)
unfolding get_pin_index
get_pin_index-pow k zero index h = absurd (omega arith)
get_pin_index-pow zero (suc fuel) index h = ap some (omega arith)
get_pin_index-pow (suc k) (suc fuel) index h =
    let double = pow-suc 2 k in
    let even : (2 ^ suc k % 2 == 1) ≡ false = ground (arith, double) in
    let half : 2 ^ suc k / 2 ≡ 2 ^ k = omega (arith, double) in
    let rest = get_pin_index-pow k fuel (index + 1) (omega arith) in
    simp (even, half) (rest ∙ ap some (omega arith))

-- The loop of `get_pin_index` ends for every 32-bit mask that is not 0, at the place of the mask's lowest
-- one bit.
pub get_pin_index-lowest :
    (fuel pin index : ℕ)
    → pin ≢ 0
    → pin < 2 ^ fuel
    → (k q : ℕ) × (get_pin_index fuel pin index ≡ some (index + k)) × (pin ≡ (2 * q + 1) * 2 ^ k)
unfolding get_pin_index
get_pin_index-lowest zero pin index some_bit h = absurd (some_bit (omega arith))
get_pin_index-lowest (suc fuel) pin index some_bit h = elim (Bool-cases (pin % 2 == 1)) [
  | inl odd ↦ (0, pin / 2, simp odd (ap some (omega arith)), ground arith)
  | inr even ↦
      (let double = pow-suc 2 fuel in
        let no_rest : pin % 2 ≡ 0 = ground arith in
        let (k, q, found, factors) =
          get_pin_index-lowest fuel (pin / 2) (index + 1) (λ z. some_bit (ground arith))
            (omega (arith, double)) in
        (
          suc k,
          q,
          simp even (found ∙ ap some (omega arith)),
          rw (pow-suc 2 k) (omega (arith, no_rest, factors)),
        ))
]

-- An interrupt of a pin below 40 is traced back to that pin's number.
pub event_index-pin_map :
    (id : ℕ) (r : IoType × ℕ) → id < 40 → pin_map id ≡ some r → event_index r.0 r.1 ≡ some id
unfolding pin_map event_index
event_index-pin_map id r h e = elim (Bool-cases (leb id 31)) [
  | inl low ↦
      (let is : (normal, 2 ^ id) ≡ r = some-injective (normal, 2 ^ id) r (rw low at e) in
        rw (sym is) (get_pin_index-pow id 32 0 (ground arith) ∙ ap some (omega arith)))
  | inr high ↦
      (let second : leb id 39 ≡ true = ground arith in
        let is : (aon, 2 ^ (id - 32)) ≡ r =
          some-injective (aon, 2 ^ (id - 32)) r (rw (high, second) at e) in
        rw (sym is) (get_pin_index-pow (id - 32) 32 32 (ground arith) ∙ ap some (ground arith)))
]
