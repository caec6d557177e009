-- ===== src/Util/Suffix.antt =====
-- util.c: what the suffix functions compute, and that translation can be undone.
use pipefs.Common.{
  ℕ, ◌+◌, ◌-◌, ◌≤◌, ◌≡◌, sym, ◌∙◌, ap, ◌↔◌, inl, inr, false, Option-cases, Option, some, ◌++◌,
  arith, length, take, drop, length-append, length-take, take-append-drop, take-length_append,
  drop-length_append, Bytes, bytes_beq_iff,
}
use pipefs.Util.{
  is_suffix, translate_suffix, allocated, has_directory_bit, check_source, translate_file,
}

pub is_suffix-append : (pre suffix : Bytes) → is_suffix (pre ++ suffix) suffix ≡ some (length pre)
unfolding is_suffix
is_suffix-append pre suffix =
    let e : length (pre ++ suffix) - length suffix ≡ length pre =
      omega (arith, length-append pre suffix) in
    let d : drop (length (pre ++ suffix) - length suffix) (pre ++ suffix) ≡ suffix =
      ap (λ n. drop n (pre ++ suffix)) e ∙ drop-length_append pre suffix in
    ground (
      arith,
      e,
      d,
      length-append pre suffix,
      bytes_beq_iff (drop (length (pre ++ suffix) - length suffix) (pre ++ suffix)) suffix,
    )

is_suffix_inv :
    (string suffix : Bytes) (n : ℕ)
    → is_suffix string suffix ≡ some n
    → (n ≡ length string - length suffix)
      × (length suffix ≤ length string)
      × (drop (length string - length suffix) string ≡ suffix)
unfolding is_suffix
is_suffix_inv string suffix n h =
    ground (arith, bytes_beq_iff (drop (length string - length suffix) string) suffix)

-- `is_suffix` answers n exactly when the string is some n bytes followed by the suffix.
pub is_suffix_iff :
    (string suffix : Bytes) (n : ℕ)
    → (is_suffix string suffix ≡ some n)
      ↔ ((pre : Bytes) × (string ≡ pre ++ suffix) × (length pre ≡ n))
is_suffix_iff string suffix n = (split, λ (pre, e, l). rw (e, is_suffix-append pre suffix, l))
  where
    split :
        is_suffix string suffix ≡ some n
        → (pre : Bytes) × (string ≡ pre ++ suffix) × (length pre ≡ n)
    split h =
        let (en, le, d) = is_suffix_inv string suffix n h in
        (
          take n string,
          sym (take-append-drop n string)
              ∙ ap (λ t. take n string ++ t) (ap (λ k. drop k string) en ∙ d),
          omega (arith, length-take n string, en, le),
        )

pub translate_suffix-append :
    (pre from to : Bytes) → translate_suffix (pre ++ from) from to ≡ some (pre ++ to)
unfolding translate_suffix
translate_suffix-append pre from to =
    rw (is_suffix-append pre from) (ap (λ t. some (t ++ to)) (take-length_append pre from))

pub translate_suffix_inv :
    (string from to result : Bytes)
    → translate_suffix string from to ≡ some result
    → (pre : Bytes) × (string ≡ pre ++ from) × (result ≡ pre ++ to)
unfolding translate_suffix
translate_suffix_inv string from to result h = elim (Option-cases (is_suffix string from)) [
  | inl e ↦ absurd (ground arith)
  | inr (n, e) ↦
      let (pre, split, l) = (is_suffix_iff string from n).0 e in
      (pre, split, ground (arith, take-length_append pre from))
]

-- A translation succeeds exactly on a name with the old suffix, and puts the new one in its place.
pub translate_suffix_iff :
    (string from to result : Bytes)
    → (translate_suffix string from to ≡ some result)
      ↔ ((pre : Bytes) × (string ≡ pre ++ from) × (result ≡ pre ++ to))
translate_suffix_iff string from to result = (
  translate_suffix_inv string from to result,
  λ (pre, e, r). rw (e, r) (translate_suffix-append pre from to),
)

-- Translating back from the new suffix to the old one gives the first name again.
translate_suffix_back :
    (string from to result : Bytes)
    → translate_suffix string from to ≡ some result
    → translate_suffix result to from ≡ some string
translate_suffix_back string from to result h =
    let (pre, e, r) = translate_suffix_inv string from to result h in
    rw (e, r) (translate_suffix-append pre to from)

-- The two copies and the terminating null fill the allocated buffer exactly.
pub translate_suffix_fits :
    (string from to result : Bytes) (n : ℕ)
    → is_suffix string from ≡ some n
    → translate_suffix string from to ≡ some result
    → length result + 1 ≡ allocated n to
unfolding allocated
translate_suffix_fits string from to result n found h =
    let (pre, e, r) = translate_suffix_inv string from to result h in
    let same : some n ≡ some (length pre) = sym found ∙ rw e (is_suffix-append pre from) in
    ground (arith, same, r, length-append pre to)

module _ (stat : Bytes → Option ℕ) where
  -- A path is translated to a source file exactly when it is some stem with the target suffix,
  -- `stat` succeeds on the stem with the source suffix, and the mode has no directory bit.
  pub translate_file_iff :
      (path suffix_source suffix_target source : Bytes)
      → (translate_file stat path suffix_source suffix_target ≡ some source) ↔ (
          (stem : Bytes) × (path ≡ stem ++ suffix_target)
          × (source ≡ stem ++ suffix_source)
          × ((mode : ℕ) × (stat source ≡ some mode) × (has_directory_bit mode ≡ false)))
  unfolding translate_file check_source
  translate_file_iff path suffix_source suffix_target source = (forth, back)
    where
      forth :
          translate_file stat path suffix_source suffix_target ≡ some source
          → (stem : Bytes) × (path ≡ stem ++ suffix_target)
            × (source ≡ stem ++ suffix_source)
            × ((mode : ℕ) × (stat source ≡ some mode) × (has_directory_bit mode ≡ false))
      forth h = elim (Option-cases (translate_suffix path suffix_target suffix_source)) [
        | inl e ↦ absurd (ground arith)
        | inr (t, e) ↦ elim (Option-cases (stat t)) [
          | inl missing ↦ absurd (ground arith)
          | inr (mode, found) ↦
              let (stem, p, r) = translate_suffix_inv path suffix_target suffix_source t e in
              let same : t ≡ source = ground arith in
              (stem, p, sym same ∙ r, (mode, rw (← same) found, ground arith))
        ]
      ]

      back :
          (stem : Bytes) × (path ≡ stem ++ suffix_target)
            × (source ≡ stem ++ suffix_source)
            × ((mode : ℕ) × (stat source ≡ some mode) × (has_directory_bit mode ≡ false))
          → translate_file stat path suffix_source suffix_target ≡ some source
      back (stem, p, r, (mode, found, plain)) =
          let e : translate_suffix path suffix_target suffix_source ≡ some source =
            rw (p, r) (translate_suffix-append stem suffix_target suffix_source) in
          ground arith
