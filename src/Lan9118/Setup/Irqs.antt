-- ===== src/Lan9118/Setup/Irqs.antt =====
-- The interrupt registers of the controller.
use Prim.Native.Nat.{bit_and}
use ohos_l0_adapter.Base.{
  ℕ, ◌-◌, ◌*◌, ◌%◌, ◌^◌, ◌<◌, ◌≤◌, ◌≡◌, refl, ◌⊎◌, ◌∷◌, ◌==◌, ◌||◌, ltb, if◌then◌else◌, returned,
  ◌>>=◌, inl, inr, Bool-cases, arith,
}
use ohos_l0_adapter.Lan9118.Words.{get_bit, set_bit, clr_bit_field}
use ohos_l0_adapter.Lan9118.Words.Digits.{bit, bit_and-le}
use ohos_l0_adapter.Lan9118.Words.Masks.{IsLevel, inside, get_bit-set_bit, bit-level}
use ohos_l0_adapter.Lan9118.Device.{
  Platform, Driver, History, read, write, irq_status, fifo_level_irq, look, put, set_bit_of,
  clr_field_of, set_field_of, no_error, param,
}
use ohos_l0_adapter.Lan9118.Setup.{clear_interrupt, set_fifo_level_irq}

module _ (env : Platform) where
  -- lan9118_clear_interrupt of a source writes back every bit that the status register shows, with that of the source:
  -- where a written 1 acknowledges an interrupt, as it does on this chip, it acknowledges all that are pending.
  pub clear_interrupt-all :
      (R : Type 0) (source k : ℕ) (s : Driver)
      → source < 32
      → k < 32
      → let w = env.reply s.history (read irq_status) % 2 ^ 32 in
        let (r, t) = clear_interrupt env {R = R} source s in
        (v : ℕ) × (t.history ≡ (write irq_status v, 0) ∷ (read irq_status, w) ∷ s.history)
        × (get_bit v k ≡ (get_bit w k || (k == source)))
  unfolding clear_interrupt set_bit_of look put ◌>>=◌
  clear_interrupt-all R source k s hs hk =
      let w = env.reply s.history (read irq_status) % 2 ^ 32 in
      (set_bit w source, refl, get_bit-set_bit w source k hs hk)

  -- On a chip whose level register shows the last word written to it, lan9118_set_fifo_level_irq at one of its three positions refuses a level above 255, and else it leaves
  -- the level in its byte and every other bit as it was.
  pub set_fifo_level_irq_lem :
      (pos level k : ℕ) (s : Driver)
      → IsLevel pos
      → k < 32
      → ((h : History) (v : ℕ)
          → v < 2 ^ 32
          → env.reply ((write fifo_level_irq v, 0) ∷ h) (read fifo_level_irq) ≡ v)
      → let w = env.reply s.history (read fifo_level_irq) % 2 ^ 32 in
        let (r, t) = set_fifo_level_irq env pos level s in
        ((255 < level) × (r ≡ returned param) × (t ≡ s))
        ⊎ ((level ≤ 255)
            × (r ≡ returned no_error)
            × ((v : ℕ) × (h : History) × (t.history ≡ (write fifo_level_irq v, 0) ∷ h)
                × (bit v k ≡ (if inside pos k then bit level (k - pos) else bit w k))))
  unfolding set_fifo_level_irq clr_field_of set_field_of look put ◌>>=◌
  set_fifo_level_irq_lem pos level k s at hk keeps =
      let w = env.reply s.history (read fifo_level_irq) % 2 ^ 32 in
      let cleared = clr_bit_field w 0xFF pos 0xFF in
      elim (Bool-cases (ltb 255 level)) [
        | inl far ↦ simp far (inl (ground arith, refl, refl))
        | inr near ↦
            let small : cleared < 2 ^ 32 =
              omega (arith, bit_and-le w (2 ^ 32 - 1 - (bit_and 0xFF 0xFF * 2 ^ pos) % 2 ^ 32)) in
            let shows : env.reply
                    ((write fifo_level_irq cleared, 0) ∷ (read fifo_level_irq, w) ∷ s.history)
                    (read fifo_level_irq)
                  % 2 ^ 32
                ≡ cleared =
              omega (arith, keeps ((read fifo_level_irq, w) ∷ s.history) cleared small, small) in
            simp (near, shows)
              (inr (ground arith, refl, (_, _, refl, bit-level w pos level k at (ground arith) hk)))
      ]
