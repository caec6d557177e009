-- ===== src/Controller/Stat.antt =====
-- Controller.cpp: the attributes of translated files, and the waits for the end of a command.
use pipefs.Common.{
  ◌⊎◌, inl, inr, true, false, length, Bool-cases, ℕ, ◌+◌, ◌*◌, ◌/◌, ◌%◌, ◌^◌, ◌≤◌, ◌<◌, ◌≡◌, refl,
  ap, Bool, Option, none, some, arith, ltb, if◌then◌else◌, Bytes,
}
use pipefs.SystemError.{Result, ok, aborts}
use pipefs.Cache.{Cache, is_finished, get_size}
use pipefs.Caches.{get_if_present}
use pipefs.Controller.{Controller}

-- The fields of `struct stat` that the code sets.
pub record StatInfo : Type 0 where
  pub mode : ℕ
  pub size : ℕ
  pub blocks : ℕ

-- `mode & (1 << n)`
abbrev pub bit : ℕ → ℕ → ℕ
bit n mode = (mode / 2 ^ n) % 2 * 2 ^ n

-- `S_IFREG | (mode & 0444)`: the bits 15, 8, 5 and 2.
unfoldable pub regular : ℕ → ℕ
regular mode = 2 ^ 15 + (bit 8 mode + (bit 5 mode + bit 2 mode))

-- `none` is a null pointer.
unfoldable pub calculated_size : Option Cache → ℕ
unfolding is_finished get_size
calculated_size none = 0
calculated_size (some cache) = if is_finished cache then get_size cache else 0

unfoldable pub modify_stat_info : Option Cache → StatInfo → StatInfo
unfolding calculated_size regular
modify_stat_info cache info =
    let size = calculated_size cache in
    record {
      mode = regular info.mode;
      size = size;
      blocks = size / 512 + (if ltb 0 (size % 512) then 1 else 0);
    }

-- The cache at an address.
abbrev pub deref : Controller → Option ℕ → Option Cache
deref c none = none
deref c (some cache) = some (c.read_loop.heap cache)

unfoldable pub correct_stat_info : Controller → Bytes → StatInfo → StatInfo
unfolding get_if_present modify_stat_info
correct_stat_info c filename info =
    modify_stat_info (if c.use_cache then deref c (get_if_present c.caches filename) else none) info

unfoldable pub correct_stat_info_data : Controller → ℕ → StatInfo → Result StatInfo
unfolding modify_stat_info
correct_stat_info_data c data_ info = elim (c.files data_) [
  | none ↦ aborts
  | some file ↦ ok (modify_stat_info (deref c file.cache) info)
]

-- Whether `Cache::waitUntilFinished` returns at once; a null pointer is an abort.
abbrev pub wait_on : Option Cache → Result Bool
wait_on none = aborts
wait_on (some cache) = ok cache.finished

unfoldable pub wait_until_finished : Controller → Bytes → Result Bool
unfolding get_if_present
wait_until_finished c filename = wait_on (deref c (get_if_present c.caches filename))

unfoldable pub wait_until_finished_data : Controller → ℕ → Result Bool
wait_until_finished_data c data_ = elim (c.files data_) [
  | none ↦ aborts
  | some file ↦ wait_on (deref c file.cache)
]

-- The bits of the value that `regular` puts together.
module _ (x y z : ℕ) (hx : x < 2) (hy : y < 2) (hz : z < 2) where
  abbrev mixed : ℕ
  mixed = 2 ^ 15 + (x * 2 ^ 8 + (y * 2 ^ 5 + z * 2 ^ 2))

  mixed_kind : mixed / 2 ^ 12 ≡ 8
  mixed_kind = omega arith

  mixed_bit_8 : (mixed / 2 ^ 8) % 2 ≡ x
  mixed_bit_8 = omega arith

  mixed_bit_5 : (mixed / 2 ^ 5) % 2 ≡ y
  mixed_bit_5 = omega arith

  mixed_bit_2 : (mixed / 2 ^ 2) % 2 ≡ z
  mixed_bit_2 = omega arith

  mixed_rest : mixed % 2 ^ 12 ≡ x * 2 ^ 8 + (y * 2 ^ 5 + z * 2 ^ 2)
  mixed_rest = omega arith

-- The size of a finished cache, and 0 without a cache or where its command has not ended.
abbrev pub IsShownSize : Option Cache → ℕ → Type 0
IsShownSize none size = size ≡ 0
IsShownSize (some cache) size =
    ((cache.finished ≡ true) × (size ≡ length cache.contents))
    ⊎ ((cache.finished ≡ false) × (size ≡ 0))

calculated_size-IsShownSize : (cache : Option Cache) → IsShownSize cache (calculated_size cache)
unfolding calculated_size is_finished get_size
calculated_size-IsShownSize none = refl
calculated_size-IsShownSize (some cache) = elim (Bool-cases cache.finished) [
  | inl ended ↦ inl (ended, rw ended refl)
  | inr runs ↦ inr (runs, rw runs refl)
]

-- Whatever the source's attributes are, a translated file is shown as a regular file with no more
-- than the read permissions of the source, with the size of its cache if the command has ended and
-- 0 otherwise, and with the least number of blocks of 512 bytes that hold this size.
pub modify_stat_info_lem :
    (cache : Option Cache) (info : StatInfo)
    → let after = modify_stat_info cache info in
      (after.mode / 2 ^ 12 ≡ 8)
      × (bit 8 after.mode ≡ bit 8 info.mode)
      × (bit 5 after.mode ≡ bit 5 info.mode)
      × (bit 2 after.mode ≡ bit 2 info.mode)
      × (after.mode % 2 ^ 12 ≡ bit 8 info.mode + (bit 5 info.mode + bit 2 info.mode))
      × IsShownSize cache after.size
      × (after.size ≤ 512 * after.blocks)
      × (512 * after.blocks < after.size + 512)
unfolding modify_stat_info regular
modify_stat_info_lem cache info =
    let x = (info.mode / 2 ^ 8) % 2 in
    let y = (info.mode / 2 ^ 5) % 2 in
    let z = (info.mode / 2 ^ 2) % 2 in
    let hx : x < 2 = omega arith in
    let hy : y < 2 = omega arith in
    let hz : z < 2 = omega arith in
    (
      mixed_kind x y z hx hy hz,
      ap (λ b. b * 2 ^ 8) (mixed_bit_8 x y z hx hy hz),
      ap (λ b. b * 2 ^ 5) (mixed_bit_5 x y z hx hy hz),
      ap (λ b. b * 2 ^ 2) (mixed_bit_2 x y z hx hy hz),
      mixed_rest x y z hx hy hz,
      calculated_size-IsShownSize cache,
      ground arith,
      ground arith,
    )
