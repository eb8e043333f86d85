-- ===== src/Project/Files.antt =====
-- main.go, compiler.go and codegen.go: a file of a project, and the names that are made of its path. A
-- panic is `none`.
use mathlib.Core.Option.{map}
use pushup.Base.{
  ℕ, ◌-◌, Bool, true, false, Option, none, some, List, [], ◌∷◌, ◌++◌, ◌==◌, if◌then◌else◌, length,
  get_elem?, take, drop, Bytes, codes, equal, has_prefix, trim_suffix, split, join, ext,
}
use pushup.Compile.Defs.{UpFileType, up_file_page, up_file_layout}
use pushup.Gen.Typenames.{typename_from_path}
use pushup.Page.Defs.{Partial, urlpath}
use pushup.Project.Filepath.{dot, rel, dir, base}

pub record ProjectFile : Type 0 where
  pub path : Bytes
  pub project_files_subdir : Bytes

-- `projectFile.relpath`
unfoldable pub relpath : ProjectFile → Option Bytes
unfolding rel
relpath f = rel f.project_files_subdir f.path

-- The elements of the directory of a path, none for the directory itself.
unfoldable pub dirs_of : Bytes → List Bytes
dirs_of d = if equal d dot then [] else split b'/' d

-- The name of a file without its extension.
unfoldable pub stem : Bytes → Bytes
stem file = trim_suffix file (ext file)

unfoldable pub with_colon : Bytes → Bytes
with_colon d = if has_prefix d (codes "$") then b':' ∷ drop 1 d else d

unfoldable pub with_colons : List Bytes → List Bytes
unfolding with_colon
with_colons [] = []
with_colons (d ∷ dirs) = with_colon d ∷ with_colons dirs

-- An index has a trailing slash. The route's first byte is a slash, so it has a last one.
unfoldable pub close_index : Bool → Bytes → Option ℕ → Bytes
close_index false route last = route
close_index true route none = route
close_index true route (some last) = if last == b'/' then route else route ++ b'/' ∷ []

unfoldable pub closing_slash : Bytes → Bytes → Bytes
unfolding close_index
closing_slash name route =
    close_index (equal name (codes "index")) route (get_elem? route (length route - 1))

unfoldable pub route_for_page : Bytes → Bytes
unfolding dirs_of stem with_colons closing_slash dir base
route_for_page relpath =
    let dirs = dirs_of (dir relpath) in
    let name = stem (base relpath) in
    let all_dirs = if equal name (codes "index") then dirs else dirs ++ name ∷ [] in
    closing_slash name (b'/' ∷ join b'/' (with_colons all_dirs))

unfoldable pub route_for_partial : Bytes → Bytes → Bytes
unfolding route_for_page dir base
route_for_partial relpath partial_urlpath =
    let prefix = trim_suffix relpath (ext relpath) in
    let page = if equal (base prefix) (codes "index") then dir prefix else prefix in
    route_for_page (page ++ b'/' ∷ partial_urlpath)

-- `projectFile.route`
unfoldable pub route : ProjectFile → Option Bytes
unfolding relpath route_for_page
route f = map route_for_page (relpath f)

-- A name that starts with `$` is no file of the go tool.
unfoldable pub escape_dollar : Bytes → Bytes
escape_dollar path = if has_prefix path (codes "$") then codes "0x24" ++ drop 1 path else path

unfoldable pub join_by : Bytes → List Bytes → Bytes
join_by sep [] = []
join_by sep (e ∷ []) = e
join_by sep (e ∷ next ∷ es) = e ++ sep ++ join_by sep (next ∷ es)

abbrev pub output_suffix : UpFileType → Bytes
output_suffix up_file_page = codes ".up"
output_suffix up_file_layout = codes ".layout.up"

unfoldable pub output_name : UpFileType → Bytes → Bytes
unfolding escape_dollar dirs_of stem join_by dir base
output_name ftype path =
    let escaped = escape_dollar path in
    join_by (codes "__") (dirs_of (dir escaped) ++ stem (base escaped) ∷ [])
    ++ output_suffix ftype
    ++ codes ".go"

unfoldable pub compiled_output_path : ProjectFile → UpFileType → Option Bytes
unfolding relpath output_name
compiled_output_path f ftype = map (output_name ftype) (relpath f)

unfoldable pub without_ext : Bytes → Bytes
without_ext path = take (length path - length (ext path)) path

abbrev pub typename_suffix : UpFileType → Bytes
typename_suffix up_file_page = codes "Page"
typename_suffix up_file_layout = codes "Layout"

-- Package unicode's tests and upper case, and the characters of a string and the string of some characters,
-- by UTF-8. The `$` that are replaced are replaced among the characters.
module _ (is_letter is_number : ℕ → Bool) (to_upper : ℕ → ℕ) (to_runes : Bytes → List ℕ)
    (of_runes : List ℕ → Bytes) where
  unfoldable pub generated_typename : ProjectFile → UpFileType → Option Bytes
  unfolding relpath without_ext typename_from_path
  generated_typename f ftype =
      map
        (λ path.
          of_runes (typename_from_path is_letter is_number to_upper (to_runes (without_ext path)))
          ++ typename_suffix ftype)
        (relpath f)

  unfoldable pub generated_typename_partial : Partial → ProjectFile → Option Bytes
  unfolding relpath without_ext typename_from_path urlpath
  generated_typename_partial p f =
      map
        (λ path.
          of_runes (
            typename_from_path is_letter is_number to_upper
              (to_runes (without_ext path ++ b'/' ∷ urlpath p)))
          ++ codes "Partial")
        (relpath f)
