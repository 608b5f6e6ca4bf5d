-- ===== src/LittleFs/Mounting.antt =====
-- The driver of fs_init.c keeps within its array, and what it mounts.
use ohos_l0_adapter.Base.{
  ℕ, zero, suc, ◌+◌, ◌<◌, ◌≤◌, ◌≡◌, ◌≢◌, ◌∙◌, Option, none, some, Bool, ℤ, pos, negsuc, Flow, go,
  returned, fault, ◌>>=◌, ◌>>◌, inl, inr, Bool-cases, arith, length, get_elem?-lt, length-set, ltb,
  Goes, goes_rules, Goes-seq, Goes-ret, Goes-invoke, Goes-when, Goes-pure, Ends,
}
use ohos_l0_adapter.LittleFs.{
  Mount, Files, Host, Resource, HdfCode, success, failure, M, FsCall, update, value_or_return,
  get_elements, get_from, fs_get_resource, check_property, fs_call, fs_driver_check, mount_one,
  mount_path, mount_all, fs_driver_init,
}

-- `fs` has the length of its declaration.
abbrev pub Sized : ℕ → Unit {0} → Files → Type 0
Sized max i s = length s.fs ≡ max

abbrev Safe : ℕ → {R A : Type 0} → M R A → Type 0
Safe max m = Goes (Sized max) ⊥ tt tt m tt

update-ends :
    (R : Type 0) (max i : ℕ) (f : Mount → Mount) (s : Files)
    → i < max
    → Sized max tt s
    → Ends (Sized max) ⊥ tt tt (update {R = R} i f s)
unfolding update ◌>>=◌
update-ends R max i f s lt sized =
    let (m, here) = get_elem?-lt s.fs i (omega (arith, sized)) in
    simp here (length-set s.fs i (f m) ∙ sized)

Safe-update : {R : Type 0} (max i : ℕ) (f : Mount → Mount) → i < max → Safe max (update {R = R} i f)
Safe-update {R = R} max i f lt = record { at = λ s sized. update-ends R max i f s lt sized }

Safe-value_or_return : (max : ℕ) (o : Option ℕ) → Safe max (value_or_return o)
unfolding value_or_return
Safe-value_or_return max none = Goes-ret failure
Safe-value_or_return max (some v) = Goes-pure v

-- One value of the configuration, and its place.
Safe-value :
    (max i : ℕ) (o : Option ℕ) (f : ℕ → Mount → Mount) (rest : M HdfCode (Unit {0}))
    → i < max
    → Safe max rest
    → Safe max (do v ← value_or_return o; update i (f v); rest)
Safe-value max i o f rest lt h =
    Goes-seq _ _ (Safe-value_or_return max o)
      (λ v. Goes-seq _ _ (Safe-update max i (f v) lt) (λ _. h))

Safe-get_elements :
    (max : ℕ) (r : Resource) (left i : ℕ) → i + left ≤ max → Safe max (get_elements r left i)
unfolding get_elements
Safe-get_elements max r zero i le = Goes-pure tt
Safe-get_elements max r (suc left) i le =
    let lt : i < max = omega arith in
    let rest = Safe-get_elements max r left (i + 1) (omega arith) in
    Safe-value max i _ _ _ lt
      (Safe-value max i _ _ _ lt (Safe-value max i _ _ _ lt (Safe-value max i _ _ _ lt rest)))

Safe-get_from : (max : ℕ) (r : Resource) (n : ℤ) → Safe max (get_from max r n)
unfolding get_from ◌>>=◌
Safe-get_from max r (negsuc n) = Goes-ret failure
Safe-get_from max r (pos n) = elim (Bool-cases (ltb max n)) [
  | inl many ↦ record { at = λ s h. simp many h }
  | inr few ↦
      let inside = Safe-get_elements max r n 0 (ground arith) in
      record {
        at = λ s h. simp few ((Goes-seq _ _ inside (λ _. Goes-ret {A = HdfCode} success)).at s h);
      }
]

Safe-fs_get_resource : (max : ℕ) (o : Option Resource) → Safe max (fs_get_resource max o)
unfolding fs_get_resource
Safe-fs_get_resource max none = Goes-ret failure
Safe-fs_get_resource max (some r) = Safe-get_from max r r.num

Safe-check_property : (max : ℕ) (o : Option (Option Resource)) → Safe max (check_property max o)
Safe-check_property max none = Goes-ret success
Safe-check_property max (some o) = Safe-fs_get_resource max o

pub Ends-safe :
    {R A : Type 0} (max : ℕ) (r : Flow R A) (t : Files)
    → Ends (Sized max) ⊥ tt tt (r, t)
    → (r ≢ fault) × (length t.fs ≡ max)
Ends-safe max (go a) t h = ((λ e. cc), h)
Ends-safe max (returned a) t h = ((λ e. cc), h)
Ends-safe max fault t h = absurd h

module _ (host : Host) where
  Safe-fs_call : {R : Type 0} (max : ℕ) (c : FsCall) → Safe max (fs_call host {R = R} c)
  unfolding fs_call
  Safe-fs_call max c = record { at = λ s h. h }

  pub Safe-fs_driver_check :
      (max : ℕ) (object? : Bool) (o : Option (Option Resource))
      → Safe max (fs_driver_check host max object? o)
  unfolding fs_driver_check
  Safe-fs_driver_check max object? o =
      search (goes_rules, Safe-check_property, Safe-fs_call) depth 12

  Safe-mount_one : (max i path : ℕ) → i < max → Safe max (mount_one host i path)
  unfolding mount_one
  Safe-mount_one max i path lt =
      let ready = λ (f : Mount → Mount). Safe-update {R = HdfCode} max i f lt in
      Goes-seq _ _ (ready _) (λ _. search (goes_rules, Safe-fs_call) depth 12)

  Safe-mount_path : (max i : ℕ) (p : Option ℕ) → i < max → Safe max (mount_path host i p)
  Safe-mount_path max i none lt = Goes-pure tt
  Safe-mount_path max i (some path) lt = Safe-mount_one max i path lt

  Safe-mount_all : (max left i : ℕ) → i + left ≤ max → Safe max (mount_all host left i)
  unfolding mount_all ◌>>=◌
  Safe-mount_all max zero i le = Goes-pure tt
  Safe-mount_all max (suc left) i le = record {
    at = λ s sized.
        let (m, here) = get_elem?-lt s.fs i (omega (arith, sized, le)) in
        let rest = Safe-mount_all max left (i + 1) (omega (arith, le)) in
        simp here (
          (Goes-seq _ _ (Safe-mount_path max i m.mount_point (omega (arith, le))) (λ _. rest)).at s
            sized);
  }

  Safe-fs_driver_init :
      (max : ℕ) (object? : Bool) (o : Option (Option Resource))
      → Safe max (fs_driver_init host max object? o)
  unfolding fs_driver_init
  Safe-fs_driver_init max object? o =
      Goes-seq _ _ (Goes-invoke _ (Safe-fs_driver_check max object? o)) (λ c.
        Goes-seq _ _ (Goes-when _ _ (Goes-ret _))
          (λ _. Goes-seq _ _ (Safe-mount_all max max 0 (omega arith)) (λ _. Goes-ret _)))

  -- With an array of the declared length, FsDriverInit never reaches outside it, whatever the configuration,
  -- the flash and the C library answer, and the array keeps its length.
  pub fs_driver_init-safe :
      (max : ℕ) (object? : Bool) (o : Option (Option Resource)) (s : Files)
      → length s.fs ≡ max
      → let (r, t) = fs_driver_init host max object? o s in (r ≢ fault) × (length t.fs ≡ max)
  fs_driver_init-safe max object? o s sized =
      let (r, t) = fs_driver_init host max object? o s in
      Ends-safe max r t ((Safe-fs_driver_init max object? o).at s sized)
