-- ===== src/Project/Find.antt =====
-- main.go: `findProjectFiles`, `rescanProjectFiles` and `routesCmd.do`. What os.ReadDir and fs.WalkDir
-- find in the file system are parameters.
use pushup.Base.{
  Bool, true, false, not, ◌&&◌, Option, none, some, List, [], ◌∷◌, ◌++◌, if◌then◌else◌, Bytes,
  codes, equal, has_suffix, ext, Result, ok, err,
}
use pushup.Project.Filepath.{dot, join_paths}
use pushup.Project.Files.{ProjectFile, relpath, route}

pub record ProjectFiles : Type 0 where
  pub pages : List ProjectFile
  pub layouts : List ProjectFile
  pub static : List ProjectFile
  pub gofiles : List Bytes

pub data DirError : Type 0 where
  not_exist other_error : DirError

pub record DirEntry : Type 0 where
  pub name : Bytes
  pub is_dir : Bool

-- A file or a folder, as fs.WalkDir reads it; a folder that it cannot read to its end has the entries
-- that it could read, since the callback passes over the error.
mutual
  pub data Entry : Type 0 where
    file : Bytes → Entry
    folder : Bytes → Entries → Entry

  pub data Entries : Type 0 where
    no_more : Entries
    entry : Entry → Entries → Entries

pub record FileSystem : Type 0 where
  pub read_dir : Bytes → Result DirError (List DirEntry)
  -- What stands at a path; `none` if fs.WalkDir cannot find it.
  pub tree_at : Bytes → Option Entry

abbrev pub name_of : Entry → Bytes
name_of (file n) = n
name_of (folder n es) = n

-- What the callback of fs.WalkDir does, and what fs.WalkDir does: it returns nil or an error, or panics.
pub data Walked (S : Type 0) : Type 0 where
  walked : Option DirError → S → Walked S
  walk_panicked : Walked S

-- fs.WalkDir. The callback is called with a path and with an entry, of which it asks only whether it is a
-- directory; the entry is nil (`none`) where there is nothing at the root.
module _ {S : Type 0} (visit : S → Bytes → Option Bool → Walked S) where
  -- An error ends the walk.
  unfoldable pub go_on : (S → Walked S) → Walked S → Walked S
  go_on rest (walked none s) = rest s
  go_on rest (walked (some e) s) = walked (some e) s
  go_on rest walk_panicked = walk_panicked

  unfoldable mutual
    unfolding go_on

    pub walk_tree : S → Bytes → Entry → Walked S
    walk_tree s path (file n) = visit s path (some false)
    walk_tree s path (folder n es) =
        go_on (λ s'. walk_entries s' path es) (visit s path (some true))

    pub walk_entries : S → Bytes → Entries → Walked S
    walk_entries s path no_more = walked none s
    walk_entries s path (entry e es) =
        go_on (λ s'. walk_entries s' path es) (walk_tree s (join_paths (path ∷ name_of e ∷ [])) e)

  unfoldable pub walk_dir : S → Option Entry → Walked S
  unfolding walk_tree
  walk_dir s none = visit s dot none
  walk_dir s (some root) = walk_tree s dot root

pub data FindResult : Type 0 where
  found : ProjectFiles → FindResult
  no_subdir reading_subdir : Bytes → FindResult
  -- an error of fs.WalkDir that is passed on
  walking_subdir : Bytes → FindResult
  find_panicked : FindResult

-- The files of a directory that have an extension, with the paths that Join makes of them.
unfoldable pub files_with : Bytes → Bytes → List DirEntry → List Bytes
unfolding join_paths
files_with suffix d [] = []
files_with suffix d (e ∷ es) =
    let rest = files_with suffix d es in
    if not e.is_dir && has_suffix e.name suffix then join_paths (d ∷ e.name ∷ []) ∷ rest else rest

unfoldable pub project_files_in : Bytes → List Bytes → List ProjectFile
project_files_in d [] = []
project_files_in d (p ∷ ps) = record { path = p; project_files_subdir = d } ∷ project_files_in d ps

abbrev pub up_file_ext : Bytes
up_file_ext = codes ".up"

-- The callbacks call `d.IsDir()` without a look at the error that fs.WalkDir passes them: with a nil
-- entry, that panics.
unfoldable pub visit_page :
    Bytes → List ProjectFile → Bytes → Option Bool → Walked (List ProjectFile)
unfolding join_paths
visit_page d pages path none = walk_panicked
visit_page d pages path (some is_dir) =
    if not is_dir && equal (ext path) up_file_ext
    then walked none
        (pages ++ record { path = join_paths (d ∷ path ∷ []); project_files_subdir = d } ∷ [])
    else walked none pages

unfoldable pub visit_static :
    Bytes → List ProjectFile → Bytes → Option Bool → Walked (List ProjectFile)
unfolding join_paths
visit_static d static path none = walk_panicked
visit_static d static path (some is_dir) =
    if not is_dir
    then walked none
        (static ++ record { path = join_paths (d ∷ path ∷ []); project_files_subdir = d } ∷ [])
    else walked none static

abbrev pub subdir : Bytes → Bytes → Bytes
subdir app_dir name = join_paths (app_dir ∷ name ∷ [])

module _ (fs : FileSystem) (app_dir : Bytes) where
  unfoldable pub after_static : ProjectFiles → Walked (List ProjectFile) → FindResult
  after_static pf (walked none static) =
      found
        (record { pages = pf.pages; layouts = pf.layouts; static = static; gofiles = pf.gofiles })
  after_static pf (walked (some not_exist) static) = no_subdir (codes "static")
  after_static pf (walked (some other_error) static) = walking_subdir (codes "static")
  after_static pf walk_panicked = find_panicked

  unfoldable pub find_static : ProjectFiles → FindResult
  unfolding after_static walk_dir visit_static
  find_static pf = after_static pf (
      walk_dir (visit_static (subdir app_dir (codes "static"))) pf.static
        (fs.tree_at (subdir app_dir (codes "static"))))

  unfoldable pub find_gofiles : ProjectFiles → Result DirError (List DirEntry) → FindResult
  unfolding find_static files_with
  find_gofiles pf (err not_exist) = no_subdir (codes "pkg")
  find_gofiles pf (err other_error) = reading_subdir (codes "pkg")
  find_gofiles pf (ok entries) = find_static (record {
    pages = pf.pages;
    layouts = pf.layouts;
    static = pf.static;
    gofiles = files_with (codes ".go") (subdir app_dir (codes "pkg")) entries;
  })

  unfoldable pub after_pages : ProjectFiles → Walked (List ProjectFile) → FindResult
  unfolding find_gofiles
  after_pages pf (walked none pages) =
      find_gofiles
        (record { pages = pages; layouts = pf.layouts; static = pf.static; gofiles = pf.gofiles })
        (fs.read_dir (subdir app_dir (codes "pkg")))
  after_pages pf (walked (some not_exist) pages) = no_subdir (codes "pages")
  after_pages pf (walked (some other_error) pages) = walking_subdir (codes "pages")
  after_pages pf walk_panicked = find_panicked

  unfoldable pub find_pages : ProjectFiles → FindResult
  unfolding after_pages walk_dir visit_page
  find_pages pf = after_pages pf (
      walk_dir (visit_page (subdir app_dir (codes "pages"))) pf.pages
        (fs.tree_at (subdir app_dir (codes "pages"))))

  unfoldable pub find_layouts : Result DirError (List DirEntry) → FindResult
  unfolding find_pages files_with project_files_in
  find_layouts (err not_exist) = no_subdir (codes "layouts")
  find_layouts (err other_error) = reading_subdir (codes "layouts")
  find_layouts (ok entries) =
      let d = subdir app_dir (codes "layouts") in
      find_pages (record {
        pages = [];
        layouts = project_files_in d (files_with up_file_ext d entries);
        static = [];
        gofiles = [];
      })

  unfoldable pub find_project_files : FindResult
  unfolding find_layouts
  find_project_files = find_layouts (fs.read_dir (subdir app_dir (codes "layouts")))

  -- `buildCmd.rescanProjectFiles`, by the pages of the command line.
  unfoldable pub rescan_project_files : List Bytes → FindResult
  unfolding find_project_files project_files_in
  rescan_project_files [] = find_project_files
  rescan_project_files (p ∷ ps) =
      found
        (record { pages = project_files_in [] (p ∷ ps); layouts = []; static = []; gofiles = [] })

infixl 5 ◌>>=◌
abbrev ◌>>=◌ : {A B : Type 0} → Option A → (A → Option B) → Option B
none >>= k = none
some a >>= k = k a

-- The lines of `routesCmd.do`: the route and the path of each page; `none` is a panic.
unfoldable pub route_lines : List ProjectFile → Option (List (Bytes × Bytes))
unfolding route relpath
route_lines [] = some []
route_lines (f ∷ fs) = do r ← route f; p ← relpath f; rest ← route_lines fs; some ((r, p) ∷ rest)
