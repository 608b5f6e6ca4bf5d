-- ===== src/HalFile.antt =====
-- The file calls of hal_file.c over the C library's: descriptors shifted by 3, paths under /data,
-- flags, sizes and seeks.
pub mod Paths
pub mod Seeks
use ohos_l0_adapter.Base.{
  ℕ, ℤ, pos, negsuc, zero, suc, ◌+◌, ◌-◌, ◌+ℤ◌, sub_ℕ, pos_part, neg_part, List, [], ◌∷◌, ◌++◌,
  Option, none, some, Bool, true, false, not, ◌||◌, is_neg, leb_ℤ, Proc, ◌>>=◌, ◌>>◌, ret, gets,
  modify, when, branch, pure, ltb, ◌==◌, if◌then◌else◌, go,
}

-- Which of the masks of utils_file.h a flag word has, each being one bit.
pub record OFlags : Type 0 where
  pub wronly : Bool
  pub rdwr : Bool
  pub creat : Bool
  pub excl : Bool
  pub trunc : Bool
  pub append : Bool

-- The access mode of the C library's flags.
pub data Access : Type 0 where
  rdonly wronly rdwr : Access

-- `tflag`
pub record TFlags : Type 0 where
  pub access : Access
  pub creat : Bool
  pub append : Bool
  pub excl : Bool
  pub trunc : Bool

pub data Whence : Type 0 where
  seek_set seek_cur seek_end : Whence

-- The C library, over a state `S` of its own: `open`, `close`, `read`, `write`, `unlink` and `lseek`
-- with their results, and `snprintf_s` for "/data/%s" within a size, `none` being -1. What a read
-- stores is not modelled.
pub record Libc (S : Type 0) : Type 0 where
  pub open_file : List ℕ → TFlags → S → ℤ × S
  pub close : ℤ → S → ℤ × S
  pub read : ℤ → ℕ → S → ℤ × S
  pub write : ℤ → List ℕ → ℕ → S → ℤ × S
  pub unlink : List ℕ → S → ℤ × S
  pub lseek : ℤ → ℤ → Whence → S → ℤ × S
  pub snprintf_s : ℕ → List ℕ → Option (List ℕ)

-- `for (; c == path[0]; path++)`
unfoldable pub skip : ℕ → List ℕ → List ℕ
skip c [] = []
skip c (x ∷ path) = let rest = skip c path in if x == c then rest else x ∷ path

-- "/data/"
abbrev pub data_dir : List ℕ
data_dir = b'/' ∷ b'd' ∷ b'a' ∷ b't' ∷ b'a' ∷ b'/' ∷ []

-- The access mode that `HalFileOpen` chooses.
unfoldable pub access_of : OFlags → Access
access_of flags = if flags.rdwr then Access.rdwr else if flags.wronly then Access.wronly else rdonly

-- `tflag` of `HalFileOpen`
unfoldable pub tflag : OFlags → TFlags
tflag flags = record {
  access = access_of flags;
  creat = flags.creat;
  append = flags.append;
  excl = flags.excl;
  trunc = flags.trunc;
}

-- `fd - OFFSET_FD`
unfoldable pub lower_fd : ℤ → ℤ
lower_fd fd = fd +ℤ negsuc 2

-- `fd < OFFSET_FD`
unfoldable pub below_offset : ℤ → Bool
below_offset fd = leb_ℤ fd (pos 2)

-- `whence` of `HalFileSeek` with the enumerators of utils_file.h, 0, 1 and 2.
unfoldable pub whence_of : ℕ → Option Whence
whence_of zero = some seek_set
whence_of (suc zero) = some seek_cur
whence_of (suc (suc zero)) = some seek_end
whence_of (suc (suc (suc n))) = none

module _ {S : Type 0} (libc : Libc S) where
  -- A call of the C library.
  unfoldable pub libc_call : {R : Type 0} → (S → ℤ × S) → Proc S R ℤ
  libc_call f s = let (code, t) = f s in (go code, t)

  -- `HalFileGetPath`; LITTLEFS_MAX_LFN_LEN is 120, a path of `none` is NULL, and a result of `none`
  -- is -1.
  unfoldable pub hal_file_get_path : Option (List ℕ) → Option (List ℕ)
  hal_file_get_path none = none
  hal_file_get_path (some path) = libc.snprintf_s 120 (data_dir ++ skip b'/' (skip b'.' path))

  -- `HalFileOpen` at a path that fits.
  unfoldable pub open_at : Option (List ℕ) → OFlags → Proc S ℤ ℤ
  open_at none flags = ret (negsuc 0)
  open_at (some path) flags = do
    fd ← libc_call (libc.open_file path (tflag flags))
    when (is_neg fd) (ret fd)
    ret (fd +ℤ pos 3)

  -- `HalFileOpen`
  unfoldable pub hal_file_open : Option (List ℕ) → OFlags → Proc S ℤ ℤ
  hal_file_open path flags = open_at (hal_file_get_path path) flags

  -- `HalFileClose`
  unfoldable pub hal_file_close : ℤ → Proc S ℤ ℤ
  hal_file_close fd = do
    when (below_offset fd) (ret (negsuc 0))
    ret (← libc_call (libc.close (lower_fd fd)))

  -- `HalFileRead`
  unfoldable pub hal_file_read : ℤ → ℕ → Proc S ℤ ℤ
  hal_file_read fd len = do
    when (below_offset fd) (ret (negsuc 0))
    ret (← libc_call (libc.read (lower_fd fd) len))

  -- `HalFileWrite`
  unfoldable pub hal_file_write : ℤ → List ℕ → ℕ → Proc S ℤ ℤ
  hal_file_write fd buf len = do
    when (below_offset fd) (ret (negsuc 0))
    ret (← libc_call (libc.write (lower_fd fd) buf len))

  -- `HalFileDelete`
  unfoldable pub delete_at : Option (List ℕ) → Proc S ℤ ℤ
  delete_at none = ret (negsuc 0)
  delete_at (some path) = do ret (← libc_call (libc.unlink path))

  unfoldable pub hal_file_delete : Option (List ℕ) → Proc S ℤ ℤ
  hal_file_delete path = delete_at (hal_file_get_path path)

  -- `HalFileStat`: the code, and what goes to `*fileSize` before its conversion to `unsigned int`.
  unfoldable pub stat_at : Option (List ℕ) → Proc S (ℤ × Option ℤ) (ℤ × Option ℤ)
  stat_at none = ret (negsuc 0, none)
  stat_at (some path) = do
    fd ← libc_call (
        libc.open_file path
          (record { access = rdonly; creat = false; append = false; excl = false; trunc = false }))
    when (is_neg fd) (ret (negsuc 0, none))
    len ← libc_call (libc.lseek fd (pos 0) seek_end)
    libc_call (libc.close fd)
    ret (pos 0, some len)

  unfoldable pub hal_file_stat : Option (List ℕ) → Proc S (ℤ × Option ℤ) (ℤ × Option ℤ)
  hal_file_stat path = stat_at (hal_file_get_path path)

  -- SEEK_SET and SEEK_CUR of `HalFileSeek`, on the lowered descriptor.
  unfoldable pub seek_within : ℤ → ℤ → Bool → Proc S ℤ ℤ
  seek_within fd offset from_cur = do
    len ← libc_call (libc.lseek fd (pos 0) seek_cur)
    len2 ← libc_call (libc.lseek fd (pos 0) seek_end)
    let target = if from_cur then offset +ℤ len else offset
    when (not (leb_ℤ target len2)) (do libc_call (libc.lseek fd len seek_set); ret (negsuc 0))
    ret (← libc_call (libc.lseek fd target seek_set))

  -- The switch of `HalFileSeek`, and what follows.
  unfoldable pub seek_by : ℤ → ℤ → Option Whence → Proc S ℤ ℤ
  seek_by fd offset none = ret (negsuc 0)
  seek_by fd offset (some seek_set) = seek_within fd offset false
  seek_by fd offset (some seek_cur) = seek_within fd offset true
  seek_by fd offset (some seek_end) = do ret (← libc_call (libc.lseek fd offset seek_end))

  -- `HalFileSeek`
  unfoldable pub hal_file_seek : ℤ → ℤ → ℕ → Proc S ℤ ℤ
  hal_file_seek fd offset whence = do
    when (below_offset fd) (ret (negsuc 0))
    seek_by (lower_fd fd) offset (whence_of whence)
