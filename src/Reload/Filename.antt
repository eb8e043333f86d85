-- ===== src/Reload/Filename.antt =====
-- reloader.go: `reloadableFilename`.
use pushup.Base.{
  ext, IsExt, ext-IsExt, ◌≡◌, Bool, true, false, not, ◌&&◌, ◌||◌, [], ◌∷◌, ◌==◌, if◌then◌else◌,
  length, Bytes, codes, has_prefix, has_suffix, arith,
}

unfoldable pub reloadable_ext : Bytes → Bool
unfolding has_prefix has_suffix
reloadable_ext e =
    if length e == 4 && has_prefix e (codes ".sw")
    then false
    else if has_suffix e (codes "~")
    then false
    else if has_prefix e (codes "#") && has_suffix e (codes "#")
    then false
    else true

unfoldable pub reloadable_filename : Bytes → Bool
unfolding ext reloadable_ext
reloadable_filename path = reloadable_ext (ext path)

reloadable_ext-IsExt :
    (e : Bytes)
    → IsExt e
    → reloadable_ext e
      ≡ not ((length e == 4 && has_prefix e (codes ".sw")) || has_suffix e (codes "~"))
unfolding reloadable_ext has_prefix
reloadable_ext-IsExt [] h = ground arith
reloadable_ext-IsExt (c ∷ s) h = ground (arith, h)

-- A file is left out if and only if its extension is one of a vim swap file, of four bytes from ".sw" on,
-- or ends in "~": the test for Emacs autosave files never holds, whatever the path, since an extension
-- starts with a dot.
pub reloadable_filename_lem :
    (path : Bytes)
    → reloadable_filename path
      ≡ not (
          (length (ext path) == 4 && has_prefix (ext path) (codes ".sw"))
          || has_suffix (ext path) (codes "~"))
unfolding reloadable_filename
reloadable_filename_lem path = reloadable_ext-IsExt (ext path) (ext-IsExt path)
