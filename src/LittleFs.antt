-- ===== src/LittleFs.antt =====
-- The port of LittleFS to the board: the block device of littlefs.c on the SPI flash, and the driver of
-- fs_init.c that reads its configuration and mounts the file systems.
pub mod Blocks
pub mod Mounting
pub mod Starting
use ohos_l0_adapter.Base.{
  ℕ, zero, suc, ◌+◌, ◌*◌, ◌^◌, ◌%◌, ◌∷◌, List, [], Option, none, some, Bool, true, false, not, ◌||◌,
  ℤ, pos, negsuc, is_zero, is_neg, Proc, go, ◌>>=◌, ◌>>◌, pure, ret, gets, modify, when, branch,
  invoke, undefined, get_elem?, set, ltb, length,
}

-- One element of `fs`: a configuration of a file system. The path is a number, NULL where there is none; `ready` says
-- that the functions and the constant sizes of LittleFS are set.
pub record Mount : Type 0 where
  pub mount_point : Option ℕ
  pub context : ℕ
  pub block_size : ℕ
  pub block_count : ℕ
  pub ready : Bool

-- `HDF_SUCCESS` and `HDF_FAILURE`, and what a `return;` without a value gives.
pub data HdfCode : Type 0 where
  success failure unspecified : HdfCode

-- A call into the flash library or the C library.
pub data FsCall : Type 0 where
  init_spi_flash deinit_spi_flash : FsCall
  buffer_read buffer_write : ℕ → ℕ → FsCall
  sector_erase : ℕ → FsCall
  mount opendir mkdir closedir : ℕ → FsCall

abbrev pub History : Type 0
History = List (FsCall × ℤ)

-- `fs` and the calls made, the latest first.
pub record Files : Type 0 where
  pub fs : List Mount
  pub history : History

-- What the calls answer; a directory that is not NULL is not 0.
pub record Host : Type 0 where
  pub reply : History → FsCall → ℤ

-- The configuration: the number of mount points, and their values by index, `none` where HDF has none.
pub record Resource : Type 0 where
  pub num : ℤ
  pub mount_points : ℕ → Option ℕ
  pub partitions : ℕ → Option ℕ
  pub block_sizes : ℕ → Option ℕ
  pub block_counts : ℕ → Option ℕ

abbrev pub M : Type 0 → Type 0 → Type 0
M R A = Proc Files R A

abbrev pub Fn : Type 0 → Type 0
Fn A = Proc Files A A

-- A write to element i of `fs`; outside the array the behaviour is undefined.
abbrev pub at_element : {R : Type 0} → ℕ → (Mount → Mount) → Option Mount → M R (Unit {0})
at_element i f none = undefined
at_element i f (some m) = modify (λ s. record s { fs = set s.fs i (f m) })

unfoldable pub update : {R : Type 0} → ℕ → (Mount → Mount) → M R (Unit {0})
update i f = do m ← gets (λ s. get_elem? s.fs i); at_element i f m

-- The value of an element of the configuration, or the end of FsGetResource.
unfoldable pub value_or_return : Option ℕ → M HdfCode ℕ
value_or_return none = ret failure
value_or_return (some v) = pure v

-- The loop of `FsGetResource`, for `left` elements from i on.
unfoldable pub get_elements : Resource → ℕ → ℕ → M HdfCode (Unit {0})
get_elements r zero i = pure tt
get_elements r (suc left) i = do
  path ← value_or_return (r.mount_points i)
  update i (λ m. record m { mount_point = some path })
  partition ← value_or_return (r.partitions i)
  update i (λ m. record m { context = partition })
  size ← value_or_return (r.block_sizes i)
  update i (λ m. record m { block_size = size })
  count ← value_or_return (r.block_counts i)
  update i (λ m. record m { block_count = count })
  get_elements r left (i + 1)

-- `FsGetResource` without LOSCFG_DRIVERS_HDF_CONFIG_MACRO; `iface` is the interface that HDF gives, NULL where it is `none`.
-- `max` is LOSCFG_LFS_MAX_MOUNT_SIZE.
unfoldable pub get_from : ℕ → Resource → ℤ → Fn HdfCode
get_from max r (negsuc n) = ret failure
get_from max r (pos n) = do when (ltb max n) (ret failure); get_elements r n 0; ret success

unfoldable pub fs_get_resource : ℕ → Option Resource → Fn HdfCode
fs_get_resource max none = ret failure
fs_get_resource max (some r) = get_from max r r.num

-- The arrays that LOSCFG_DRIVERS_HDF_CONFIG_MACRO makes of the configuration.
pub record Arrays : Type 0 where
  pub num : ℤ
  pub mount_points : ℕ → ℕ
  pub partitions : ℕ → ℕ
  pub block_sizes : ℕ → ℕ
  pub block_counts : ℕ → ℕ

-- `FsGetResource` with LOSCFG_DRIVERS_HDF_CONFIG_MACRO: the same loop, over values that are there.
unfoldable pub fs_get_arrays : ℕ → Arrays → Fn HdfCode
fs_get_arrays max a =
    get_from max
      (record {
        num = a.num;
        mount_points = λ i. some (a.mount_points i);
        partitions = λ i. some (a.partitions i);
        block_sizes = λ i. some (a.block_sizes i);
        block_counts = λ i. some (a.block_counts i);
      })
      a.num

abbrev pub is_failure : HdfCode → Bool
is_failure success = false
is_failure c = true

-- The configuration of an object with a property.
abbrev pub check_property : ℕ → Option (Option Resource) → Fn HdfCode
check_property max none = ret success
check_property max (some iface) = fs_get_resource max iface

-- The block device. Addresses have 32 bits.
abbrev pub address : Mount → ℕ → ℕ → ℕ
address cfg block off = (cfg.context + cfg.block_size * block + off) % 2 ^ 32

module _ (host : Host) where
  unfoldable pub fs_call : {R : Type 0} → FsCall → M R ℤ
  fs_call c s =
      let code = host.reply s.history c in (go code, record s { history = (c, code) ∷ s.history })

  -- `LittlefsRead`, `LittlefsProg`, `LittlefsErase` and `LittlefsSync`: all report success.
  unfoldable pub littlefs_read : Mount → ℕ → ℕ → ℕ → Fn HdfCode
  littlefs_read cfg block off size = do
    fs_call (buffer_read (address cfg block off) size)
    ret success

  unfoldable pub littlefs_prog : Mount → ℕ → ℕ → ℕ → Fn HdfCode
  littlefs_prog cfg block off size = do
    fs_call (buffer_write (address cfg block off) size)
    ret success

  unfoldable pub littlefs_erase : Mount → ℕ → Fn HdfCode
  littlefs_erase cfg block = do fs_call (sector_erase (address cfg block 0)); ret success

  unfoldable pub littlefs_sync : Fn HdfCode
  littlefs_sync = ret success

  -- `FsDriverCheck`, for an object that is not NULL where `object?` holds, with its property where it has one.
  unfoldable pub fs_driver_check : ℕ → Bool → Option (Option Resource) → Fn HdfCode
  fs_driver_check max object? property = do
    when (not object?) (ret failure)
    code ← invoke (check_property max property)
    when (is_failure code) (ret failure)
    flash ← fs_call init_spi_flash
    when (not (is_zero flash)) (ret failure)
    ret success

  -- The body of the loop of `FsDriverInit` for an element with a mount point.
  unfoldable pub mount_one : ℕ → ℕ → M HdfCode (Unit {0})
  mount_one i path = do
    update i (λ m. record m { ready = true })
    fs_call (mount path)
    dir ← fs_call (opendir path)
    branch (is_zero dir)
        (do made ← fs_call (mkdir path); when (not (is_zero made)) (ret unspecified))
        (do fs_call (closedir path); pure tt)

  -- Nothing is done for an element without a mount point.
  abbrev pub mount_path : ℕ → Option ℕ → M HdfCode (Unit {0})
  mount_path i none = pure tt
  mount_path i (some path) = mount_one i path

  abbrev pub mount_at : ℕ → Option Mount → M HdfCode (Unit {0})
  mount_at i none = undefined
  mount_at i (some m) = mount_path i m.mount_point

  -- The loop of `FsDriverInit`, for `left` elements from i on.
  unfoldable pub mount_all : ℕ → ℕ → M HdfCode (Unit {0})
  mount_all zero i = pure tt
  mount_all (suc left) i = do m ← gets (λ s. get_elem? s.fs i); mount_at i m; mount_all left (i + 1)

  -- `FsDriverInit`
  unfoldable pub fs_driver_init : ℕ → Bool → Option (Option Resource) → Fn HdfCode
  fs_driver_init max object? property = do
    code ← invoke (fs_driver_check max object? property)
    when (is_failure code) (ret failure)
    mount_all max 0
    ret success

  -- `FsDriverBind` and `FsDriverRelease`
  unfoldable pub fs_driver_bind : Fn HdfCode
  fs_driver_bind = ret success

  unfoldable pub fs_driver_release : {R : Type 0} → M R ℤ
  fs_driver_release = fs_call deinit_spi_flash
