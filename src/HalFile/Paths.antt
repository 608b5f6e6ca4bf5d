-- ===== src/HalFile/Paths.antt =====
-- Paths and descriptors of hal_file.c.
use ohos_l0_adapter.Base.{
  ℕ, pos, zero, suc, ◌+◌, List, ◌∷◌, ◌++◌, some, ◌≡◌, ◌≢◌, refl, true, false, replicate, returned,
  ◌>>=◌, ◌==◌, arith, leb_ℤ, +ℤ-pos, +ℤ-negsuc,
}
use ohos_l0_adapter.HalFile.{
  Libc, OFlags, skip, tflag, lower_fd, below_offset, hal_file_get_path, open_at, hal_file_open,
  hal_file_close, hal_file_read, hal_file_write, libc_call,
}

skip-replicate : (c k : ℕ) (path : List ℕ) → skip c (replicate k c ++ path) ≡ skip c path
unfolding skip
skip-replicate c zero path = refl
skip-replicate c (suc k) path =
    let same : (c == c) ≡ true = ground arith in simp (same, skip-replicate c k path)

skip-other : (c d : ℕ) (rest : List ℕ) → (d == c) ≡ false → skip c (d ∷ rest) ≡ d ∷ rest
unfolding skip
skip-other c d rest h = rw h refl

-- Neither dot nor slash: `skip` of dots stops at slashes and at `c`.
skip-slashes :
    (k c : ℕ) (rest : List ℕ)
    → (c == b'.') ≡ false
    → skip b'.' (replicate k b'/' ++ (c ∷ rest)) ≡ replicate k b'/' ++ (c ∷ rest)
skip-slashes zero c rest h = skip-other b'.' c rest h
skip-slashes (suc k) c rest h = skip-other b'.' b'/' (replicate k b'/' ++ (c ∷ rest)) refl

-- Dots and then slashes in front of a path that begins with neither do not change the file that it
-- names: `x`, `/x`, `./x`, but also `.x`, are one file.
pub hal_file_get_path-prefix :
    {S : Type 0} (libc : Libc S) (dots slashes c : ℕ) (rest : List ℕ)
    → c ≢ b'.'
    → c ≢ b'/'
    → hal_file_get_path libc (some (replicate dots b'.' ++ (replicate slashes b'/' ++ (c ∷ rest))))
      ≡ hal_file_get_path libc (some (c ∷ rest))
unfolding hal_file_get_path
hal_file_get_path-prefix libc dots slashes c rest no_dot no_slash =
    let differs : (c == b'.') ≡ false = ground arith in
    let apart : (c == b'/') ≡ false = ground arith in
    rw
      (
        hal_file_get_path,
        skip-replicate b'.' dots (replicate slashes b'/' ++ (c ∷ rest)),
        skip-slashes slashes c rest differs,
        skip-replicate b'/' slashes (c ∷ rest),
        skip-other b'.' c rest differs,
      )
      refl

-- A descriptor that the C library returns is handed out 3 higher, and HalFileRead, HalFileWrite and
-- HalFileClose give it back to the C library as it was.
pub hal_file_open-descriptor :
    {S : Type 0} (libc : Libc S) (path full : List ℕ) (flags : OFlags) (s t : S) (n : ℕ)
    → hal_file_get_path libc (some path) ≡ some full
    → libc.open_file full (tflag flags) s ≡ (pos n, t)
    → (hal_file_open libc (some path) flags s ≡ (returned (pos (n + 3)), t))
      × ((len : ℕ)
          → (u : S) → (hal_file_read libc (pos (n + 3)) len u).1 ≡ (libc.read (pos n) len u).1)
      × ((buf : List ℕ) (len : ℕ) (u : S)
          → (hal_file_write libc (pos (n + 3)) buf len u).1 ≡ (libc.write (pos n) buf len u).1)
      × ((u : S)
          → hal_file_close libc (pos (n + 3)) u
            ≡ (returned (libc.close (pos n) u).0, (libc.close (pos n) u).1))
unfolding hal_file_open open_at hal_file_read hal_file_write hal_file_close lower_fd below_offset
    libc_call ◌>>=◌
hal_file_open-descriptor libc path full flags s t n fits opens =
    let inside : leb_ℤ (pos (n + 3)) (pos 2) ≡ false = ground arith in
    simp (fits, opens, inside, +ℤ-pos, +ℤ-negsuc n 2)
      (refl, (λ len u. refl), (λ buf len u. refl), (λ u. refl))
