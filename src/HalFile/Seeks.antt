-- ===== src/HalFile/Seeks.antt =====
-- HalFileSeek of hal_file.c over an `lseek` that follows its documentation.
use ohos_l0_adapter.Base.{
  ℕ, ℤ, pos, negsuc, ◌+◌, ◌≡◌, true, false, returned, ◌>>=◌, arith, leb, leb_ℤ, ◌≤◌, if◌then◌else◌,
  Bool-cases, inl, inr, +ℤ-pos, +ℤ-negsuc,
}
use ohos_l0_adapter.HalFile.{
  Libc, seek_set, seek_cur, seek_end, lower_fd, below_offset, libc_call, whence_of, seek_by,
  seek_within, hal_file_seek,
}

-- `lseek` on a file that has a size and a position: it moves the position and nothing else, and
-- refuses a negative one.
pub record Lseek {S : Type 0} (libc : Libc S) : Type 0 where
  pub size : ℤ → S → ℕ
  pub position : ℤ → S → ℕ
  pub move : ℤ → ℕ → S → S
  pub at_cur : (fd : ℤ) (s : S) → libc.lseek fd (pos 0) seek_cur s ≡ (pos (position fd s), s)
  pub at_end :
      (fd : ℤ) (s : S) → libc.lseek fd (pos 0) seek_end s ≡ (pos (size fd s), move fd (size fd s) s)
  pub at_set : (fd : ℤ) (n : ℕ) (s : S) → libc.lseek fd (pos n) seek_set s ≡ (pos n, move fd n s)
  pub refuses : (fd : ℤ) (n : ℕ) (s : S) → libc.lseek fd (negsuc n) seek_set s ≡ (negsuc 0, s)
  pub move-move : (fd : ℤ) (m n : ℕ) (s : S) → move fd n (move fd m s) ≡ move fd n s
  pub move-position : (fd : ℤ) (s : S) → move fd (position fd s) s ≡ s

lower_fd-pos : (n : ℕ) → lower_fd (pos (n + 3)) ≡ pos n
unfolding lower_fd
lower_fd-pos n = +ℤ-negsuc n 2

module _ {S : Type 0} (libc : Libc S) (laws : Lseek libc) (k n : ℕ) (s : S) where
  -- Where `lseek` follows its documentation, a seek from the start goes to a place within the file or at
  -- its end, and one beyond the end fails and leaves the file as it was.
  pub hal_file_seek-set : hal_file_seek libc (pos (k + 3)) (pos n) 0 s ≡ (
      if leb n (laws.size (pos k) s)
      then (returned (pos n), laws.move (pos k) n s)
      else (returned (negsuc 0), s))
  unfolding hal_file_seek seek_by seek_within below_offset whence_of libc_call ◌>>=◌
  hal_file_seek-set =
      let inside : leb_ℤ (pos (k + 3)) (pos 2) ≡ false = ground arith in
      elim (Bool-cases (leb n (laws.size (pos k) s))) [
        | inl fits ↦
            simp
              (inside, lower_fd-pos k, laws.at_cur, laws.at_end, laws.at_set, laws.move-move, fits)
        | inr beyond ↦ simp (
          inside,
          lower_fd-pos k,
          laws.at_cur,
          laws.at_end,
          laws.at_set,
          laws.move-move,
          laws.move-position,
          beyond,
        )
      ]

  -- Where `lseek` follows its documentation, a seek from the position moves it on by the offset, as long
  -- as that stays within the file.
  pub hal_file_seek-onwards :
      n + laws.position (pos k) s ≤ laws.size (pos k) s
      → hal_file_seek libc (pos (k + 3)) (pos n) 1 s ≡ (
        returned (pos (n + laws.position (pos k) s)),
        laws.move (pos k) (n + laws.position (pos k) s) s,
      )
  unfolding hal_file_seek seek_by seek_within below_offset whence_of libc_call ◌>>=◌
  hal_file_seek-onwards h =
      let inside : leb_ℤ (pos (k + 3)) (pos 2) ≡ false = ground arith in
      let fits : leb_ℤ (pos (n + laws.position (pos k) s)) (pos (laws.size (pos k) s)) ≡ true =
        ground arith in
      simp (
        inside,
        lower_fd-pos k,
        +ℤ-pos,
        laws.at_cur,
        laws.at_end,
        laws.at_set,
        laws.move-move,
        fits,
      )

  -- Where `lseek` follows its documentation, a seek to a negative place fails, but leaves the position at
  -- the end of the file.
  pub hal_file_seek-negative :
      hal_file_seek libc (pos (k + 3)) (negsuc n) 0 s
      ≡ (returned (negsuc 0), laws.move (pos k) (laws.size (pos k) s) s)
  unfolding hal_file_seek seek_by seek_within below_offset whence_of libc_call ◌>>=◌
  hal_file_seek-negative =
      let inside : leb_ℤ (pos (k + 3)) (pos 2) ≡ false = ground arith in
      simp (inside, lower_fd-pos k, laws.at_cur, laws.at_end, laws.refuses)
