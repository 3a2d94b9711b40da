-- ===== src/Prelude/Utf8.antt =====
-- `std::str::from_utf8`: which byte strings are UTF-8 (the standard library's table of the Unicode
-- standard, 3-7), and the ASCII folding of `to_ascii_lowercase` and `eq_ignore_ascii_case`.
use Prim.Native.Nat.{ℕ, ◌+◌, ◌-◌}
use mathlib.Core.Bool.{Bool, true, false, ◌&&◌, ◌||◌}
use mathlib.Core.List.{List, [], ◌∷◌, map}
use mathlib.Core.Path.{◌≡◌, refl}
use warp_socks.Prelude.Tests.{eq→==, ==→eq, both_true, leb, ltb, ◌==◌, if◌then◌else◌}

abbrev between : ℕ → ℕ → ℕ → Bool
between lo hi b = leb lo b && leb b hi

-- After a first byte: how many bytes follow, and the range of the next one. `4` marks no first byte.
abbrev after_first : ℕ → ℕ × ℕ × ℕ
after_first b =
    if ltb b 0x80
    then (0, 0, 0)
    else if between 0xc2 0xdf b
    then (1, 0x80, 0xbf)
    else if b == 0xe0
    then (2, 0xa0, 0xbf)
    else if b == 0xed
    then (2, 0x80, 0x9f)
    else if between 0xe1 0xef b
    then (2, 0x80, 0xbf)
    else if b == 0xf0
    then (3, 0x90, 0xbf)
    else if between 0xf1 0xf3 b
    then (3, 0x80, 0xbf)
    else if b == 0xf4
    then (3, 0x80, 0x8f)
    else (4, 0, 0)

-- `need` bytes are still to come, the next of them from `lo` to `hi`
utf8_from : ℕ × ℕ × ℕ → List ℕ → Bool
utf8_from (need, lo, hi) [] = need == 0
utf8_from (need, lo, hi) (b ∷ rest) =
    let next = if need == 0 then after_first b else (need - 1, 0x80, 0xbf) in
    (need == 0 || between lo hi b) && ltb next.0 4 && utf8_from next rest

unfoldable pub is_utf8 : List ℕ → Bool
unfolding utf8_from
is_utf8 = utf8_from (0, 0, 0)

abbrev pub ascii_lower : ℕ → ℕ
ascii_lower b = if between b'A' b'Z' b then b + 32 else b

abbrev pub to_ascii_lowercase : List ℕ → List ℕ
to_ascii_lowercase = map ascii_lower

abbrev pub bytes_eq : List ℕ → List ℕ → Bool
bytes_eq [] [] = true
bytes_eq (x ∷ xs) (y ∷ ys) = x == y && bytes_eq xs ys
bytes_eq _ _ = false

pub bytes_eq_refl : (xs : List ℕ) → bytes_eq xs xs ≡ true
bytes_eq_refl [] = refl
bytes_eq_refl (x ∷ xs) = rw (eq→== x x refl, bytes_eq_refl xs) refl

pub bytes_eq_sound : (xs ys : List ℕ) → bytes_eq xs ys ≡ true → xs ≡ ys
bytes_eq_sound [] [] h = refl
bytes_eq_sound [] (y ∷ ys) h = cc
bytes_eq_sound (x ∷ xs) [] h = cc
bytes_eq_sound (x ∷ xs) (y ∷ ys) h =
    let (first, rest) = both_true (x == y) (bytes_eq xs ys) h in
    let same = ==→eq x y first in let others = bytes_eq_sound xs ys rest in cc
