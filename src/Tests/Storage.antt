-- ===== src/Tests/Storage.antt =====
-- The LittleFS port on a concrete configuration.
use ohos_l0_adapter.Base.{
  ℕ, ℤ, pos, negsuc, ◌++◌, ◌>>=◌, ◌+◌, ◌*◌, ◌≤◌, ◌≡◌, ◌≢◌, refl, ◌⊎◌, [], ◌∷◌, none, some, true,
  returned, fault, arith, length,
}
use ohos_l0_adapter.LittleFs.{
  Mount, Files, Host, Resource, success, buffer_write, sector_erase, littlefs_prog, littlefs_erase,
  FsCall, mount, opendir, fs_driver_check, fs_driver_init, mount_all, mount_one, fs_get_resource,
  get_from, get_elements, value_or_return, update, fs_call,
}
use ohos_l0_adapter.LittleFs.Blocks.{littlefs_prog-apart}
use ohos_l0_adapter.LittleFs.Starting.{mounted, points, fs_driver_init-mounts}
use ohos_l0_adapter.LittleFs.Mounting.{fs_driver_init-safe}

-- The partition of the board: 2048 blocks of 4096 bytes from 8 MiB on.
abbrev flash : Mount
flash = record {
  mount_point = some 1;
  context = 0x800000;
  block_size = 4096;
  block_count = 2048;
  ready = true;
}

abbrev host : Host
host = record { reply = λ h c. pos 0 }

abbrev files : Files
files = record { fs = flash ∷ record flash { mount_point = none } ∷ []; history = [] }

-- A configuration with a mount point and no partition.
abbrev incomplete : Resource
incomplete = record {
  num = pos 1;
  mount_points = λ i. some 1;
  partitions = λ i. none;
  block_sizes = λ i. some 4096;
  block_counts = λ i. some 2048;
}

littlefs_prog-apart_example :
    let (r, t) = littlefs_prog host flash 3 64 128 files in
    let (q, u) = littlefs_erase host flash 4 t in
    (r ≡ returned success)
    × (q ≡ returned success)
    × ((a : ℕ) × (e : ℕ) × (v : ℤ) × (w : ℤ) × (u.history
          ≡ (sector_erase e, w) ∷ (buffer_write a 128, v) ∷ [])
        × (0x800000 ≤ a)
        × (a + 128 ≤ 0x800000 + 4096 * 2048)
        × ((a + 128 ≤ e) ⊎ (e + 4096 ≤ a)))
littlefs_prog-apart_example =
    littlefs_prog-apart host flash files 3 4 64 128 (omega arith) (omega arith) (omega arith)
      (λ e. absurd (omega arith)) (omega arith) (omega arith)

fs_driver_init-safe_example :
    let (r, t) = fs_driver_init host 2 true (some (some incomplete)) files in
    (r ≢ fault) × (length t.fs ≡ 2)
fs_driver_init-safe_example = fs_driver_init-safe host 2 true (some (some incomplete)) files refl

-- Two mount points; opendir finds every directory, and mount fails.
abbrev broken_reply : FsCall → ℤ
broken_reply (mount p) = negsuc 0
broken_reply (opendir p) = pos 7
broken_reply c = pos 0

abbrev broken : Host
broken = record { reply = λ h c. broken_reply c }

abbrev two_points : Resource
two_points = record incomplete {
  num = pos 2;
  mount_points = λ i. some (i + 1);
  partitions = λ i. some 0x800000;
}

fs_driver_init-mounts_example :
    let (_, t) = fs_driver_check broken 2 true (some (some two_points)) files in
    let (q, u) = fs_driver_init broken 2 true (some (some two_points)) files in
    (q ≡ returned success) × (mounted u.history ≡ mounted t.history ++ points 2 0 t.fs)
unfolding fs_driver_check fs_get_resource get_from get_elements value_or_return update fs_call ◌>>=◌
fs_driver_init-mounts_example =
    fs_driver_init-mounts broken (λ h p. refl) 2 true (some (some two_points)) files refl refl

two_points-mounted :
    let (_, u) = fs_driver_init broken 2 true (some (some two_points)) files in
    mounted u.history ≡ 1 ∷ 2 ∷ []
unfolding fs_driver_init mount_all mount_one fs_driver_check fs_get_resource get_from get_elements
    value_or_return update fs_call ◌>>=◌
two_points-mounted = refl
