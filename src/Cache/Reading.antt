-- ===== src/Cache/Reading.antt =====
-- Cache.cpp: what `write` leaves and `read` returns, and a client that reads a cache to its end.
use mathlib.Core.Option
use mathlib.Core.List.{append-nil}
use pipefs.Common.{
  ℕ, zero, suc, ◌+◌, ◌-◌, ◌^◌, ◌≤◌, ◌<◌, min, ◌≡◌, refl, sym, ◌∙◌, ap, ◌↔◌, ◌⊎◌, inl, inr, true,
  false, Option, none, some, dec_lt, List, [], ◌∷◌, ◌++◌, arith, length, take, drop, length-append,
  length-take, length-drop, take-length_append, take_of_length-le, drop-append, Bytes,
}
use pipefs.Common.Int.{ℤ, pos, negsuc, int_of_size_small}
use pipefs.Cache.{Cache, resize, memmove, write, blocks, returns, read}

zeros : ℕ → Bytes
zeros zero = []
zeros (suc n) = 0 ∷ zeros n

length-zeros : (n : ℕ) → length (zeros n) ≡ n
unfolding zeros
length-zeros zero = refl
length-zeros (suc n) = ap suc (length-zeros n)

resize-nil : (n : ℕ) → resize n [] ≡ zeros n
unfolding resize zeros
resize-nil zero = refl
resize-nil (suc n) = ap (◌∷◌ 0) (resize-nil n)

resize_longer : (bs : Bytes) (m n : ℕ) → m ≡ length bs + n → resize m bs ≡ bs ++ zeros n
unfolding resize
resize_longer [] m n e = let e' : m ≡ n = omega arith in rw e' (resize-nil n)
resize_longer (b ∷ bs) zero n e = absurd (omega arith)
resize_longer (b ∷ bs) (suc m) n e = ap (◌∷◌ b) (resize_longer bs m n (omega arith))

drop_of_length-le {ℓ} : {A : Type ℓ} (n : ℕ) (xs : List A) → length xs ≤ n → drop n xs ≡ []
drop_of_length-le zero [] h = refl
drop_of_length-le zero (x ∷ xs) h = absurd (omega arith)
drop_of_length-le (suc n) [] h = refl
drop_of_length-le (suc n) (x ∷ xs) h = drop_of_length-le n xs (omega arith)

drop-drop {ℓ} : {A : Type ℓ} (m n k : ℕ) (xs : List A) → m + n ≡ k → drop n (drop m xs) ≡ drop k xs
drop-drop zero n k xs e = let e' : n ≡ k = omega arith in ap (λ i. drop i xs) e'
drop-drop (suc m) zero zero xs e = absurd (omega arith)
drop-drop (suc m) n zero xs e = absurd (omega arith)
drop-drop (suc m) zero (suc k) [] e = refl
drop-drop (suc m) (suc n) (suc k) [] e = refl
drop-drop (suc m) n (suc k) (x ∷ xs) e = drop-drop m n k xs (omega arith)

-- Resizing the vector and copying into it appends the written bytes, and changes nothing else.
pub write-append :
    (c : Cache) (buf : Bytes) (n : ℕ)
    → n ≤ length buf
    → write c buf n ≡ record c { contents = c.contents ++ take n buf }
unfolding write memmove
write-append c buf n h =
    let grown : resize (length c.contents + n) c.contents ≡ c.contents ++ zeros n =
      resize_longer c.contents _ n refl in
    let cut : drop (length c.contents + length (take n buf)) (c.contents ++ zeros n) ≡ [] =
      drop_of_length-le (length c.contents + length (take n buf)) (c.contents ++ zeros n)
        (omega (arith, length-append c.contents (zeros n), length-zeros n, length-take n buf)) in
    rw (grown, cut, take-length_append c.contents (zeros n), append-nil)

take-min-length {ℓ} :
    {A : Type ℓ} (n m : ℕ) (xs : List A) → length xs ≡ m → take (min n m) xs ≡ take n xs
take-min-length n m xs e = elim (leb-cases n m) [
  | inl le ↦ let e' : min n m ≡ n = omega arith in rw e'
  | inr ge ↦
      let e' : min n m ≡ m = omega arith in
      rw e' (take_of_length-le m xs (omega arith) ∙ sym (take_of_length-le n xs (omega arith)))
]
  where
    leb-cases : (a b : ℕ) → (a ≤ b) ⊎ (b ≤ a)
    leb-cases a b = omega arith

-- A read waits exactly while the cache is not finished and has no byte at the position.
read-blocks_iff :
    (c : Cache) (n position : ℕ)
    → (read c n position ≡ blocks) ↔ ((c.finished ≡ false) × (length c.contents ≤ position))
unfolding read
read-blocks_iff c n position = (λ h. ground arith, λ h. ground arith)

pub read_ready :
    (c : Cache) (n position : ℕ)
    → n < 2 ^ 31
    → position < length c.contents
    → let bytes = take n (drop position c.contents) in
      read c n position ≡ returns (pos (length bytes)) bytes
unfolding read
read_ready c n position small ready = ground (
  arith,
  int_of_size_small (min n (length c.contents - position)),
  length-drop position c.contents,
  length-take n (drop position c.contents),
  take-min-length n (length c.contents - position) (drop position c.contents),
)

-- A read that does not wait returns the number of the bytes that it delivers, and these are the
-- next at the position, as many as there are up to the length asked for.
pub read-returns :
    (c : Cache) (n position : ℕ) (r : ℤ) (bytes : Bytes)
    → n < 2 ^ 31
    → read c n position ≡ returns r bytes
    → (r ≡ pos (length bytes)) × (bytes ≡ take n (drop position c.contents))
unfolding read
read-returns c n position r bytes small h = ground (
  arith,
  int_of_size_small (min n (length c.contents - position)),
  length-drop position c.contents,
  length-take (min n (length c.contents - position)) (drop position c.contents),
  take-min-length n (length c.contents - position) (drop position c.contents),
  drop_of_length-le position c.contents,
  take_of_length-le {A = ℕ} n [],
)

take-append-drop-length {ℓ} :
    {A : Type ℓ} (n : ℕ) (xs : List A) → take n xs ++ drop (length (take n xs)) xs ≡ xs
take-append-drop-length zero xs = refl
take-append-drop-length (suc n) [] = refl
take-append-drop-length (suc n) (x ∷ xs) = ap (◌∷◌ x) (take-append-drop-length n xs)

take-append_split {ℓ} :
    {A : Type ℓ} (n k : ℕ) (xs ys : List A)
    → k ≡ n - length xs
    → take n (xs ++ ys) ≡ take n xs ++ take k ys
take-append_split zero k [] ys e = let e' : k ≡ 0 = omega arith in rw e'
take-append_split (suc n) k [] ys e = let e' : k ≡ suc n = omega arith in rw e'
take-append_split zero k (x ∷ xs) ys e = let e' : k ≡ 0 = omega arith in rw e'
take-append_split (suc n) k (x ∷ xs) ys e = ap (◌∷◌ x) (take-append_split n k xs ys (omega arith))

-- Bytes delivered stay as they are: after a later write the same read delivers them again, and
-- possibly more behind them.
read-write :
    (c : Cache) (buf : Bytes) (k n position : ℕ) (r : ℤ) (bytes : Bytes)
    → n < 2 ^ 31
    → k ≤ length buf
    → 0 < length bytes
    → read c n position ≡ returns r bytes
    → (more : Bytes) × (read (write c buf k) n position
        ≡ returns (pos (length (bytes ++ more))) (bytes ++ more))
read-write c buf k n position r bytes small le some_read h =
    let (er, eb) = read-returns c n position r bytes small h in
    let ready : position < length c.contents = omega (
      arith,
      ap length eb,
      length-take n (drop position c.contents),
      length-drop position c.contents,
    ) in
    let more = take (n - length (drop position c.contents)) (take k buf) in
    let same : take n (drop position (c.contents ++ take k buf)) ≡ bytes ++ more =
      rw (drop-append position c.contents (take k buf) (omega arith)) (
        take-append_split n (n - length (drop position c.contents)) (drop position c.contents)
          (take k buf) refl
        ∙ ap (λ t. t ++ more) (sym eb)) in
    (
      more,
      rw (write-append c buf k le) (
          read_ready (record c { contents = c.contents ++ take k buf }) n position small
            (omega (arith, length-append c.contents (take k buf)))
          ∙ ap (λ t. returns (pos (length t)) t) same),
    )

-- A client that asks for `chunk` bytes at a time, from `position` on, until it gets none. `none`
-- means that a read waits, fails, or that the fuel has run out.
unfoldable pub read_to_end : ℕ → ℕ → Cache → ℕ → Option Bytes
read_to_end zero chunk c position = none
read_to_end (suc fuel) chunk c position = elim (read c chunk position) [
  | blocks ↦ none
  | returns (negsuc _) _ ↦ none
  | returns (pos zero) _ ↦ some []
  | returns (pos (suc n)) bytes ↦
      Option.map (λ rest. bytes ++ rest) (read_to_end fuel chunk c (position + suc n))
]

read_end :
    (c : Cache) (n position : ℕ)
    → c.finished ≡ true
    → length c.contents ≤ position
    → read c n position ≡ returns (pos 0) []
unfolding read
read_end c n position f h = ground arith

-- Read in chunks of any size up to the largest `int`, a finished cache gives all that was written
-- to it from the position on, once, in order, and then its end.
pub read_to_end_lem :
    (fuel chunk position : ℕ) (c : Cache)
    → c.finished ≡ true
    → 0 < chunk
    → chunk < 2 ^ 31
    → length c.contents - position < fuel
    → read_to_end fuel chunk c position ≡ some (drop position c.contents)
unfolding read_to_end
read_to_end_lem zero chunk position c f some_chunk small enough = elim enough [ ]
read_to_end_lem (suc fuel) chunk position c f some_chunk small enough =
    elim (dec_lt position (length c.contents)) [
      | no out ↦ ground (arith, read_end c chunk position f, drop_of_length-le position c.contents)
      | yes ready ↦ step ready (read_to_end_lem fuel chunk _ c f some_chunk small)
    ]
  where
    bytes : Bytes
    bytes = take chunk (drop position c.contents)

    m : ℕ
    m = length bytes - 1

    step :
        position < length c.contents
        → (length c.contents - (position + suc m) < fuel
            → read_to_end fuel chunk c (position + suc m)
              ≡ some (drop (position + suc m) c.contents))
        → read_to_end (suc fuel) chunk c position ≡ some (drop position c.contents)
    step ready ih =
        let e : length bytes ≡ suc m =
          omega (
            arith,
            length-take chunk (drop position c.contents),
            length-drop position c.contents,
          ) in
        let rest : drop (position + suc m) c.contents
            ≡ drop (length bytes) (drop position c.contents) =
          sym (drop-drop position (length bytes) _ c.contents (omega (arith, e))) in
        let whole : bytes ++ drop (position + suc m) c.contents ≡ drop position c.contents =
          ap (λ t. bytes ++ t) rest ∙ take-append-drop-length chunk (drop position c.contents) in
        ground (arith, read_ready c chunk position small ready, e, ih (omega (arith, e)), whole)
