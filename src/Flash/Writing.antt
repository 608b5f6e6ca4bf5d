-- ===== src/Flash/Writing.antt =====
-- The order of erasing and writing in hal_iot_flash.c.
use ohos_l0_adapter.Base.{
  ℕ, ◌∷◌, List, ◌≡◌, ◌≢◌, refl, ◌%◌, ◌^◌, ◌>>=◌, ◌==◌, false, arith, Bool-cases, inl, inr, ◌⊎◌,
  returned,
}
use ohos_l0_adapter.Flash.{
  Chip, History, flash_erase, flash_write, flash_call, erase_or_return, iot_flash_write,
  iot_flash_erase,
}

module _ (chip : Chip) (offset size : ℕ) where
  -- A write that is to erase first writes only after the library has erased the same range, and then gives its caller
  -- the library's result and no code of its own; without that it fails and writes nothing.
  pub iot_flash_write-erases :
      (bytes : List ℕ) (do_erase : ℕ) (h : History)
      → do_erase ≢ 0
      → let (r, t) = iot_flash_write chip offset size bytes do_erase h in
        let (q, u) = iot_flash_erase chip offset size h in
        ((q ≡ returned chip.iot_success)
          × ((code : ℕ) × (t ≡ (flash_write offset bytes size, code) ∷ u)
              × (r ≡ returned (code % 2 ^ 32))))
        ⊎ ((q ≡ returned chip.iot_failure) × (r ≡ returned chip.iot_failure) × (t ≡ u))
  unfolding iot_flash_write iot_flash_erase erase_or_return flash_call ◌>>=◌
  iot_flash_write-erases bytes do_erase h ne =
      let asked : (do_erase == 0) ≡ false = ground arith in
      let erased = (flash_erase offset size, chip.reply h (flash_erase offset size)) ∷ h in
      elim (Bool-cases (chip.reply h (flash_erase offset size) == 1)) [
        | inl good ↦
            simp (asked, good)
              (inl (refl, (chip.reply erased (flash_write offset bytes size), refl, refl)))
        | inr bad ↦ simp (asked, bad) (inr (refl, refl, refl))
      ]
