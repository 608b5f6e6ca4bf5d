-- ===== src/Wifi/Registry/Table.antt =====
-- The table of listeners as a list: how often a struct stands in it, and where the searches of
-- wifi_device.c end.
use ohos_l0_adapter.Base.{
  ℕ, zero, suc, ◌+◌, ◌<◌, ◌≡◌, ◌≢◌, take, Bool-cases, inl, inr, refl, ap, ◌∙◌, List, [], ◌∷◌, ◌++◌,
  Option, none, some, ◌==◌, if◌then◌else◌, get_elem?, set, arith,
}
use ohos_l0_adapter.Wifi.Types.{WifiErrorCode, success, invalid_args, busy}
use ohos_l0_adapter.Wifi.Registry.{Found, registered, empty_slot, full, find_slot, find_registered}

-- How often `e` is registered.
abbrev pub count : ℕ → List (Option ℕ) → ℕ
count e [] = 0
count e (none ∷ slots) = count e slots
count e (some h ∷ slots) = let n = count e slots in if h == e then suc n else n

-- No NULL slot stands before a registered one.
abbrev pub IsCompact : List (Option ℕ) → Type 0
IsCompact [] = Unit
IsCompact (none ∷ slots) = (e : ℕ) → count e slots ≡ 0
IsCompact (some h ∷ slots) = IsCompact slots

abbrev pub verdict : Found → WifiErrorCode
verdict registered = invalid_args
verdict full = busy
verdict (empty_slot i) = success

abbrev pub placed : ℕ → Found → List (Option ℕ) → List (Option ℕ)
placed e (empty_slot i) slots = set slots i (some e)
placed e _ slots = slots

-- The search from slot `i` finds what the search from slot 0 finds, `i` slots on.
abbrev shifted : ℕ → Found → Found
shifted i (empty_slot j) = empty_slot (i + j)
shifted i found = found

find_slot-shift :
    (e i : ℕ) (slots : List (Option ℕ)) → find_slot e i slots ≡ shifted i (find_slot e 0 slots)
unfolding find_slot
find_slot-shift e i [] = refl
find_slot-shift e i (none ∷ slots) = ap empty_slot (omega arith)
find_slot-shift e i (some h ∷ slots) =
    ground (arith, find_slot-shift e (i + 1) slots, find_slot-shift e (0 + 1) slots)

-- Every slot of `slots` holds a struct other than `e`.
abbrev pub Others : ℕ → List (Option ℕ) → Type 0
Others e [] = Unit {0}
Others e (none ∷ slots) = ⊥
Others e (some h ∷ slots) = (h ≢ e) × Others e slots

-- Where the search from slot 0 ends: the slots in front hold others, and it is at the struct, at a NULL slot,
-- or behind the last one.
abbrev pub EndsAt : ℕ → Found → List (Option ℕ) → Type 0
EndsAt e registered slots = (k : ℕ) × Others e (take k slots) × (get_elem? slots k ≡ some (some e))
EndsAt e (empty_slot k) slots = Others e (take k slots) × (get_elem? slots k ≡ some none)
EndsAt e full slots = Others e slots

EndsAt-cons :
    (e h : ℕ) (found : Found) (slots : List (Option ℕ))
    → h ≢ e
    → EndsAt e found slots
    → EndsAt e (shifted 1 found) (some h ∷ slots)
EndsAt-cons e h registered slots ne (k, others, here) = (suc k, (ne, others), here)
EndsAt-cons e h (empty_slot k) slots ne (others, here) =
    let next : 1 + k ≡ suc k = omega arith in rw next ((ne, others), here)
EndsAt-cons e h full slots ne others = (ne, others)

pub find_slot-EndsAt : (e : ℕ) (slots : List (Option ℕ)) → EndsAt e (find_slot e 0 slots) slots
unfolding find_slot
find_slot-EndsAt e [] = tt
find_slot-EndsAt e (none ∷ slots) = (tt, refl)
find_slot-EndsAt e (some h ∷ slots) = elim (Bool-cases (h == e)) [
  | inl same ↦ let at : h ≡ e = ground arith in rw same (0, tt, ap (λ x. some (some x)) at)
  | inr differs ↦
      let apart : h ≢ e = ground arith in
      rw (differs, find_slot-shift e 1 slots)
        (EndsAt-cons e h (find_slot e 0 slots) slots apart (find_slot-EndsAt e slots))
]

pub find_slot-empty :
    (e : ℕ) (slots : List (Option ℕ)) (k : ℕ)
    → find_slot e 0 slots ≡ empty_slot k
    → get_elem? slots k ≡ some none
unfolding find_slot
find_slot-empty e [] k h = cc
find_slot-empty e (none ∷ slots) zero h = refl
find_slot-empty e (none ∷ slots) (suc k) h = ground arith
find_slot-empty e (some a ∷ slots) zero h = ground (arith, find_slot-shift e (0 + 1) slots)
find_slot-empty e (some a ∷ slots) (suc k) h =
    ground (arith, find_slot-shift e (0 + 1) slots, find_slot-empty e slots k)

-- In a compact table the search meets whoever is registered.
pub find_slot-registered :
    (e : ℕ) (slots : List (Option ℕ))
    → IsCompact slots
    → 0 < count e slots
    → find_slot e 0 slots ≡ registered
unfolding find_slot
find_slot-registered e [] c h = absurd (omega arith)
find_slot-registered e (none ∷ slots) c h = absurd (omega (arith, c e))
find_slot-registered e (some a ∷ slots) c h =
    ground (arith, find_slot-shift e (0 + 1) slots, find_slot-registered e slots c)

-- A search that starts with others and then a NULL slot ends there.
pub find_slot-hole :
    (e : ℕ) (before after : List (Option ℕ))
    → count e before ≡ 0
    → (k : ℕ) × (find_slot e 0 (before ++ (none ∷ after)) ≡ empty_slot k)
unfolding find_slot
find_slot-hole e [] after h = (0, refl)
find_slot-hole e (none ∷ before) after h = (0, refl)
find_slot-hole e (some a ∷ before) after h =
    let (k, found) = find_slot-hole e before after (ground arith) in
    (suc k, ground (arith, find_slot-shift e (0 + 1) (before ++ (none ∷ after))))

pub count-set :
    (e f k : ℕ) (slots : List (Option ℕ))
    → get_elem? slots k ≡ some none
    → count f (set slots k (some e)) ≡ (if e == f then suc (count f slots) else count f slots)
count-set e f k [] h = cc
count-set e f zero (none ∷ slots) h = refl
count-set e f zero (some a ∷ slots) h = cc
count-set e f (suc k) (none ∷ slots) h = count-set e f k slots h
count-set e f (suc k) (some a ∷ slots) h = ground (arith, count-set e f k slots)

pub count-append : (e : ℕ) (xs ys : List (Option ℕ)) → count e (xs ++ ys) ≡ count e xs + count e ys
count-append e [] ys = omega arith
count-append e (none ∷ xs) ys = count-append e xs ys
count-append e (some a ∷ xs) ys = ground (arith, count-append e xs ys)

pub find_registered-set :
    (e i k : ℕ) (slots : List (Option ℕ))
    → get_elem? slots k ≡ some none
    → count e slots ≡ 0
    → find_registered e i (set slots k (some e)) ≡ some (i + k)
unfolding find_registered
find_registered-set e i k [] h new = cc
find_registered-set e i zero (none ∷ slots) h new = ground arith
find_registered-set e i zero (some a ∷ slots) h new = cc
find_registered-set e i (suc k) (none ∷ slots) h new =
    find_registered-set e (i + 1) k slots h new ∙ ap some (omega arith)
find_registered-set e i (suc k) (some a ∷ slots) h new =
    ground (arith, find_registered-set e (i + 1) k slots h)

pub set-set_none :
    (e k : ℕ) (slots : List (Option ℕ))
    → get_elem? slots k ≡ some none
    → set (set slots k (some e)) k none ≡ slots
set-set_none e k [] h = refl
set-set_none e zero (none ∷ slots) h = refl
set-set_none e zero (some a ∷ slots) h = cc
set-set_none e (suc k) (a ∷ slots) h = ap (λ t. a ∷ t) (set-set_none e k slots h)
