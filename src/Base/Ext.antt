-- ===== src/Base/Ext.antt =====
-- filepath.Ext, on the bytes of a path.
use mathlib.Core.Path.{◌≡◌, refl}
use mathlib.Core.Bool.{Bool, true, false, not, ◌&&◌, ◌||◌}
use mathlib.Core.List.{[], ◌∷◌}
use Prim.Native.Nat.{ℕ}
use native.Mathlib.Omega.{arith}
use pushup.Base.Tests.{◌==◌, if◌then◌else◌}
use pushup.Base.Text.{Bytes}

unfoldable pub has_slash : Bytes → Bool
has_slash [] = false
has_slash (c ∷ s) = c == b'/' || has_slash s

-- From the last dot of the last element on.
unfoldable pub later_ext : Bytes → ℕ → Bytes → Bytes
unfolding has_slash
later_ext (d ∷ e) c s = d ∷ e
later_ext [] c s = if c == b'.' && not (has_slash s) then c ∷ s else []

unfoldable pub ext : Bytes → Bytes
unfolding later_ext
ext [] = []
ext (c ∷ s) = later_ext (ext s) c s

-- An extension is empty or starts with a dot.
abbrev pub IsExt : Bytes → Type 0
IsExt [] = Unit
IsExt (c ∷ s) = c ≡ b'.'

later_ext-IsExt : (e : Bytes) (c : ℕ) (s : Bytes) → IsExt e → IsExt (later_ext e c s)
unfolding later_ext
later_ext-IsExt (d ∷ e) c s h = h
later_ext-IsExt [] c s h = by_test (c == b'.' && not (has_slash s)) refl
  where
    by_test : (t : Bool) → (c == b'.' && not (has_slash s)) ≡ t → IsExt (if t then c ∷ s else [])
    by_test true q = ground (arith, q)
    by_test false q = tt

pub ext-IsExt : (path : Bytes) → IsExt (ext path)
unfolding ext
ext-IsExt [] = tt
ext-IsExt (c ∷ s) = later_ext-IsExt (ext s) c s (ext-IsExt s)
