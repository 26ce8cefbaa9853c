-- ===== src/Base/Slices.antt =====
-- Byte slices, `copy` and texts as their bytes.
use Prim.Native.Nat.{ℕ}
use Prim.Native.Char.{code}
use Prim.Native.String.{String}
use mathlib.Core.Path.{◌≡◌}
use mathlib.Core.Bool.{Bool, true, false, ◌&&◌}
use mathlib.Core.Logic.{◌↔◌}
use mathlib.Core.List.{List, [], ◌∷◌, ◌++◌, append-nil}
use native.Mathlib.Omega.{arith}
use vpn_cloude.Base.Tests.{◌==◌}
use vpn_cloude.Base.Lists.{
  length, take, drop, length-append, length-take, length-drop, take_all, drop_all,
}

abbrev pub Bytes : Type 0
Bytes = List ℕ

-- The code points of a text: its bytes, if it is ASCII.
abbrev pub codes : String → Bytes
codes String.[] = []
codes (String.◌∷◌ c s) = code c ∷ codes s

-- `copy(dst, src)` of the builtin: the destination keeps its length.
abbrev pub copy_into : Bytes → Bytes → Bytes
copy_into dst src = take (length dst) src ++ drop (length src) dst

pub length-copy_into : (dst src : Bytes) → length (copy_into dst src) ≡ length dst
length-copy_into dst src = omega (
  arith,
  length-append (take (length dst) src) (drop (length src) dst),
  length-take (length dst) src,
  length-drop (length src) dst,
)

pub copy_into_whole : (dst src : Bytes) → length src ≡ length dst → copy_into dst src ≡ src
copy_into_whole dst src h = rw (
  take_all (length dst) src (omega arith),
  drop_all (length src) dst (omega arith),
  append-nil src,
)

-- `bytes.Equal`.
unfoldable pub bytes_equal : Bytes → Bytes → Bool
bytes_equal [] [] = true
bytes_equal [] (y ∷ ys) = false
bytes_equal (x ∷ xs) [] = false
bytes_equal (x ∷ xs) (y ∷ ys) = x == y && bytes_equal xs ys

pub bytes_equal_iff : (xs ys : Bytes) → (bytes_equal xs ys ≡ true) ↔ (xs ≡ ys)
unfolding bytes_equal
bytes_equal_iff [] [] = ground arith
bytes_equal_iff [] (y ∷ ys) = ground arith
bytes_equal_iff (x ∷ xs) [] = ground arith
bytes_equal_iff (x ∷ xs) (y ∷ ys) = ground (arith, bytes_equal_iff xs ys)
