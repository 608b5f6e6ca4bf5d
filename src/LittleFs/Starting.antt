-- ===== src/LittleFs/Starting.antt =====
-- Which file systems FsDriverInit of fs_init.c mounts.
use mathlib.Core.List.{append_assoc, append-nil}
use ohos_l0_adapter.Base.{
  ℕ, zero, suc, ◌+◌, ◌<◌, ◌≤◌, ◌≡◌, ◌≢◌, refl, sym, ap, ◌∙◌, List, [], ◌∷◌, ◌++◌, Option, none,
  some, Bool, true, false, is_zero, go, returned, ◌>>=◌, arith, get_elem?, set, length,
  get_elem?-lt, length-set, get_elem?-set_ne,
}
use ohos_l0_adapter.LittleFs.Mounting.{Ends-safe, Safe-fs_driver_check}
use ohos_l0_adapter.LittleFs.{
  Mount, Files, Host, Resource, success, History, mount, opendir, update, fs_call, fs_driver_check,
  mount_one, mount_path, mount_all, fs_driver_init,
}

-- The paths mounted, in their order.
abbrev pub mounted : History → List ℕ
mounted [] = []
mounted ((mount p, v) ∷ h) = mounted h ++ (p ∷ [])
mounted (e ∷ h) = mounted h

abbrev pub path_list : Option ℕ → List ℕ
path_list none = []
path_list (some p) = p ∷ []

abbrev pub point_of : Option Mount → List ℕ
point_of none = []
point_of (some m) = path_list m.mount_point

-- The mount points of `left` elements from i on.
abbrev pub points : ℕ → ℕ → List Mount → List ℕ
points zero i fs = []
points (suc left) i fs = point_of (get_elem? fs i) ++ points left (i + 1) fs

points-set :
    (left j i : ℕ) (fs : List Mount) (m : Mount)
    → i < j
    → points left j (set fs i m) ≡ points left j fs
points-set zero j i fs m lt = refl
points-set (suc left) j i fs m lt =
    let other : i ≢ j = λ e. absurd (omega arith) in
    rw (get_elem?-set_ne fs i j m other)
      (ap (λ r. point_of (get_elem? fs j) ++ r) (points-set left (j + 1) i fs m (omega arith)))

module _ (host : Host)
    (there : (h : History) (p : ℕ) → is_zero (host.reply h (opendir p)) ≡ false) where
  -- One element: the call of mount, then opendir and closedir.
  mount_path-mounted :
      (i : ℕ) (p : Option ℕ) (m : Mount) (s : Files)
      → get_elem? s.fs i ≡ some m
      → let (r, t) = mount_path host i p s in
        (r ≡ go tt)
        × (mounted t.history ≡ mounted s.history ++ path_list p)
        × (length t.fs ≡ length s.fs)
        × ((left : ℕ) → points left (i + 1) t.fs ≡ points left (i + 1) s.fs)
  unfolding mount_one update fs_call ◌>>=◌
  mount_path-mounted i none m s here =
      (refl, sym (append-nil (mounted s.history)), refl, λ left. refl)
  mount_path-mounted i (some p) m s here =
      simp (here, there)
        (
          refl,
          refl,
          length-set s.fs i (record m { ready = true }),
          λ left. points-set left (i + 1) i s.fs (record m { ready = true }) (omega arith),
        )

  mount_all-mounted :
      (left i : ℕ) (s : Files)
      → i + left ≤ length s.fs
      → let (r, t) = mount_all host left i s in
        (r ≡ go tt) × (mounted t.history ≡ mounted s.history ++ points left i s.fs)
  unfolding mount_all ◌>>=◌
  mount_all-mounted zero i s le = (refl, sym (append-nil (mounted s.history)))
  mount_all-mounted (suc left) i s le =
      let (m, here) = get_elem?-lt s.fs i (omega (arith, le)) in
      let (ok, calls, sized, rest) = mount_path-mounted i m.mount_point m s here in
      let (_, t) = mount_path host i m.mount_point s in
      let (done, later) = mount_all-mounted left (i + 1) t (omega (arith, le, sized)) in
      let all =
        later
        ∙ ap (λ ps. mounted t.history ++ ps) (rest left)
        ∙ ap (λ ps. ps ++ points left (i + 1) s.fs) calls
        ∙ append_assoc (mounted s.history) (path_list m.mount_point) (points left (i + 1) s.fs) in
      simp (here, ok) (done, all)

  -- On an array of the declared length, where opendir finds every directory and FsDriverCheck succeeds, FsDriverInit
  -- succeeds, and after the check it calls mount for the mount points of the whole array, in their order, whatever
  -- mount answers.
  pub fs_driver_init-mounts :
      (max : ℕ) (object? : Bool) (o : Option (Option Resource)) (s : Files)
      → length s.fs ≡ max
      → (fs_driver_check host max object? o s).0 ≡ returned success
      → let (_, t) = fs_driver_check host max object? o s in
        let (q, u) = fs_driver_init host max object? o s in
        (q ≡ returned success) × (mounted u.history ≡ mounted t.history ++ points max 0 t.fs)
  unfolding fs_driver_init ◌>>=◌
  fs_driver_init-mounts max object? o s sized ok =
      let (_, t) = fs_driver_check host max object? o s in
      let (_, same) =
        Ends-safe max (fs_driver_check host max object? o s).0 t
          ((Safe-fs_driver_check host max object? o).at s sized) in
      let (done, calls) = mount_all-mounted max 0 t (omega (arith, same)) in
      simp (ok, done) (refl, calls)
