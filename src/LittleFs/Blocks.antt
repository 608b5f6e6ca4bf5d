-- ===== src/LittleFs/Blocks.antt =====
-- The addresses that the block device of littlefs.c uses.
use native.Mathlib.Nat.{mul-le-mul_left}
use ohos_l0_adapter.Base.{
  ℕ, suc, ◌+◌, ◌*◌, ◌^◌, ◌<◌, ◌≤◌, ◌≡◌, ◌≢◌, refl, ◌∷◌, ◌⊎◌, inl, inr, returned, ◌>>=◌, arith, ltb,
  Bool-cases, ℤ,
}
use ohos_l0_adapter.LittleFs.{
  Mount, Files, Host, success, buffer_write, sector_erase, address, fs_call, littlefs_prog,
  littlefs_erase,
}

block_end : (m b c : ℕ) → b < c → m * b + m ≤ m * c
block_end m b c lt = omega (arith, mul-le-mul_left {m = suc b} {n = c} m lt)

blocks-apart :
    (c m block other off size : ℕ)
    → block ≢ other
    → off + size ≤ m
    → (c + m * block + off + size ≤ c + m * other) ⊎ (c + m * other + m ≤ c + m * block + off)
blocks-apart c m block other off size ne within = elim (Bool-cases (ltb block other)) [
  | inl before ↦
      let next = block_end m block other (ground arith) in inl (omega (arith, next, within))
  | inr behind ↦
      let next = block_end m other block (ground arith) in inr (omega (arith, next, within))
]

-- On a file system within 32 bits of address, a write inside a block goes to an address inside the file system's
-- part of the flash, and outside the sector that an erase of another block erases; both report success.
pub littlefs_prog-apart :
    (host : Host) (cfg : Mount) (s : Files) (block other off size : ℕ)
    → cfg.context + cfg.block_size * cfg.block_count < 2 ^ 32
    → block < cfg.block_count
    → other < cfg.block_count
    → block ≢ other
    → off + size ≤ cfg.block_size
    → 0 < size
    → let (r, t) = littlefs_prog host cfg block off size s in
      let (q, u) = littlefs_erase host cfg other t in
      (r ≡ returned success)
      × (q ≡ returned success)
      × ((a : ℕ) × (e : ℕ) × (v : ℤ) × (w : ℤ) × (u.history
            ≡ (sector_erase e, w) ∷ (buffer_write a size, v) ∷ s.history)
          × (cfg.context ≤ a)
          × (a + size ≤ cfg.context + cfg.block_size * cfg.block_count)
          × ((a + size ≤ e) ⊎ (e + cfg.block_size ≤ a)))
unfolding littlefs_prog littlefs_erase fs_call ◌>>=◌
littlefs_prog-apart host cfg s block other off size bound hb ho ne within positive =
    let total = block_end cfg.block_size block cfg.block_count hb in
    let rest = block_end cfg.block_size other cfg.block_count ho in
    let a_eq : address cfg block off ≡ cfg.context + cfg.block_size * block + off =
      omega (arith, total) in
    let e_eq : address cfg other 0 ≡ cfg.context + cfg.block_size * other =
      omega (arith, rest, positive) in
    let apart = blocks-apart cfg.context cfg.block_size block other off size ne within in
    (
      refl,
      refl,
      (_, _, _, _, refl, omega (arith, a_eq), omega (arith, a_eq, total), rw (a_eq, e_eq) apart),
    )
