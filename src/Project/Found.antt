-- ===== src/Project/Found.antt =====
-- main.go: what `findProjectFiles` finds, and what `pushup routes` prints.
use pushup.Base.{
  ◌≡◌, ◌⊎◌, refl, sym, ◌∙◌, ap, Bool, true, false, not, ◌&&◌, none, some, List, [], ◌∷◌, ◌++◌, map,
  if◌then◌else◌, Bytes, codes, All, equal, has_suffix, ext, ok, append-nil, append_assoc,
}
use pushup.Project.Filepath.{join_paths}
use pushup.Project.Rel.{relpath-join_paths}
use pushup.Project.Files.{ProjectFile, relpath, route, route_for_page}
use pushup.Project.Walk.{
  below_all, IsNamedAll, path_to, fold_files, walk_entries-below, IsFile, below_all-IsFile,
}
use pushup.Project.Find.{
  DirEntry, Entries, folder, FileSystem, walked, go_on, walk_tree, walk_dir, FindResult, found,
  no_subdir, walking_subdir, files_with, project_files_in, up_file_ext, visit_page, visit_static,
  subdir, after_static, after_pages, find_static, find_gofiles, find_pages, find_layouts,
  find_project_files, route_lines,
}

-- The file at a path below a directory of the project.
abbrev pub file_in : Bytes → Bytes → ProjectFile
file_in d path = record { path = join_paths (d ∷ path ∷ []); project_files_subdir = d }

-- The paths of the pages among files.
unfoldable pub page_paths : List (List Bytes) → List Bytes
page_paths [] = []
page_paths (ns ∷ fs) =
    let rest = page_paths fs in
    if equal (ext (path_to ns)) up_file_ext then path_to ns ∷ rest else rest

-- What the callbacks do for a file.
step_page : Bytes → List ProjectFile → Bytes → List ProjectFile
step_page d pages path =
    if equal (ext path) up_file_ext then pages ++ file_in d path ∷ [] else pages

step_static : Bytes → List ProjectFile → Bytes → List ProjectFile
step_static d static path = static ++ file_in d path ∷ []

visit_page-step :
    (d : Bytes) (pages : List ProjectFile) (path : Bytes)
    → visit_page d pages path (some false) ≡ walked none (step_page d pages path)
unfolding visit_page step_page
visit_page-step d pages path = by_test (equal (ext path) up_file_ext)
  where
    by_test :
        (t : Bool)
        → (if t then walked none (pages ++ file_in d path ∷ []) else walked none pages)
          ≡ walked none (if t then pages ++ file_in d path ∷ [] else pages)
    by_test true = refl
    by_test false = refl

fold_files-step_page :
    (d : Bytes) (pages : List ProjectFile) (fs : List (List Bytes))
    → fold_files (step_page d) pages fs ≡ pages ++ map (file_in d) (page_paths fs)
unfolding fold_files step_page page_paths
fold_files-step_page d pages [] = sym (append-nil pages)
fold_files-step_page d pages (ns ∷ fs) =
    by_test (equal (ext (path_to ns)) up_file_ext)
      (fold_files-step_page d (pages ++ file_in d (path_to ns) ∷ []) fs)
      (fold_files-step_page d pages fs)
  where
    by_test :
        (t : Bool)
        → fold_files (step_page d) (pages ++ file_in d (path_to ns) ∷ []) fs
          ≡ (pages ++ file_in d (path_to ns) ∷ []) ++ map (file_in d) (page_paths fs)
        → fold_files (step_page d) pages fs ≡ pages ++ map (file_in d) (page_paths fs)
        → fold_files (step_page d) (if t then pages ++ file_in d (path_to ns) ∷ [] else pages) fs
          ≡ pages ++ map (file_in d) (if t then path_to ns ∷ page_paths fs else page_paths fs)
    by_test true taken left =
        taken ∙ append_assoc pages (file_in d (path_to ns) ∷ []) (map (file_in d) (page_paths fs))
    by_test false taken left = left

fold_files-step_static :
    (d : Bytes) (static : List ProjectFile) (fs : List (List Bytes))
    → fold_files (step_static d) static fs ≡ static ++ map (file_in d) (map path_to fs)
unfolding fold_files step_static
fold_files-step_static d static [] = sym (append-nil static)
fold_files-step_static d static (ns ∷ fs) =
    fold_files-step_static d (static ++ file_in d (path_to ns) ∷ []) fs
    ∙ append_assoc static (file_in d (path_to ns) ∷ []) (map (file_in d) (map path_to fs))

walk_pages :
    (d root : Bytes) (es : Entries)
    → IsNamedAll es
    → walk_dir (visit_page d) [] (some (folder root es))
      ≡ walked none (map (file_in d) (page_paths (below_all [] es)))
unfolding walk_dir walk_tree go_on visit_page
walk_pages d root es h =
    walk_entries-below (step_page d) (visit_page d) (λ s path. refl) (visit_page-step d) [] [] es tt
      h
    ∙ ap (walked none) (fold_files-step_page d [] (below_all [] es))

walk_static :
    (d root : Bytes) (es : Entries)
    → IsNamedAll es
    → walk_dir (visit_static d) [] (some (folder root es))
      ≡ walked none (map (file_in d) (map path_to (below_all [] es)))
unfolding walk_dir walk_tree go_on visit_static step_static
walk_static d root es h =
    walk_entries-below (step_static d) (visit_static d) (λ s path. refl) (λ s path. refl) [] [] es
      tt h
    ∙ ap (walked none) (fold_files-step_static d [] (below_all [] es))

relpath-file_in :
    (d : Bytes) (ns : List Bytes) → IsFile ns → relpath (file_in d (path_to ns)) ≡ some (path_to ns)
unfolding IsFile
relpath-file_in d [] h = elim h [ ]
relpath-file_in d (n ∷ ns) h = relpath-join_paths d n ns h

-- The files directly in a directory.
unfoldable pub plain_files : List DirEntry → List Bytes
plain_files [] = []
plain_files (e ∷ es) = let rest = plain_files es in if e.is_dir then rest else e.name ∷ rest

-- The names that end in a suffix.
unfoldable pub ending_in : Bytes → List Bytes → List Bytes
ending_in suffix [] = []
ending_in suffix (n ∷ ns) =
    let rest = ending_in suffix ns in if has_suffix n suffix then n ∷ rest else rest

abbrev pub path_in : Bytes → Bytes → Bytes
path_in d name = join_paths (d ∷ name ∷ [])

files_with-plain_files :
    (suffix d : Bytes) (es : List DirEntry)
    → files_with suffix d es ≡ map (path_in d) (ending_in suffix (plain_files es))
unfolding files_with plain_files ending_in
files_with-plain_files suffix d [] = refl
files_with-plain_files suffix d (e ∷ es) = by_test e.is_dir (files_with-plain_files suffix d es)
  where
    by_suffix :
        (u : Bool)
        → files_with suffix d es ≡ map (path_in d) (ending_in suffix (plain_files es))
        → (if not false && u
            then path_in d e.name ∷ files_with suffix d es
            else files_with suffix d es)
          ≡ map (path_in d) (
              if u
              then e.name ∷ ending_in suffix (plain_files es)
              else ending_in suffix (plain_files es))
    by_suffix true h = ap (◌∷◌ (path_in d e.name)) h
    by_suffix false h = h

    by_test :
        (t : Bool)
        → files_with suffix d es ≡ map (path_in d) (ending_in suffix (plain_files es))
        → (if not t && has_suffix e.name suffix
            then path_in d e.name ∷ files_with suffix d es
            else files_with suffix d es)
          ≡ map
              (path_in d)
              (ending_in suffix (if t then plain_files es else e.name ∷ plain_files es))
    by_test true h = h
    by_test false h = by_suffix (has_suffix e.name suffix) h

project_files_in-map :
    (d : Bytes) (ns : List Bytes) → project_files_in d (map (path_in d) ns) ≡ map (file_in d) ns
unfolding project_files_in
project_files_in-map d [] = refl
project_files_in-map d (n ∷ ns) = ap (◌∷◌ (file_in d n)) (project_files_in-map d ns)

-- If the four directories can be read, and the entries in the trees have names, findProjectFiles finds
-- the files of the tree below `pages` that have the extension of a page, in the order of the walk, all
-- those below `static`, and, in the order of the directory, the files directly in `layouts` and `pkg`,
-- not the directories there, whose names end in `.up` and `.go`.
pub find_project_files_lem :
    (fs : FileSystem) (app_dir : Bytes) (layouts gofiles : List DirEntry) (r s : Bytes)
    (pages static : Entries)
    → fs.read_dir (subdir app_dir (codes "layouts")) ≡ ok layouts
    → fs.tree_at (subdir app_dir (codes "pages")) ≡ some (folder r pages)
    → fs.read_dir (subdir app_dir (codes "pkg")) ≡ ok gofiles
    → fs.tree_at (subdir app_dir (codes "static")) ≡ some (folder s static)
    → IsNamedAll pages
    → IsNamedAll static
    → find_project_files fs app_dir
      ≡ found (record {
        pages = map (file_in (subdir app_dir (codes "pages"))) (page_paths (below_all [] pages));
        layouts =
            map
              (file_in (subdir app_dir (codes "layouts")))
              (ending_in (codes ".up") (plain_files layouts));
        static =
            map (file_in (subdir app_dir (codes "static"))) (map path_to (below_all [] static));
        gofiles =
            map
              (path_in (subdir app_dir (codes "pkg")))
              (ending_in (codes ".go") (plain_files gofiles));
      })
unfolding find_project_files find_layouts find_pages after_pages find_gofiles find_static
    after_static
find_project_files_lem fs app_dir layouts gofiles r s pages static el ep eg es hp hs =
    let in_layouts = subdir app_dir (codes "layouts") in
    rw
      (
        el,
        ep,
        walk_pages (subdir app_dir (codes "pages")) r pages hp,
        eg,
        es,
        walk_static (subdir app_dir (codes "static")) s static hs,
        files_with-plain_files (codes ".up") in_layouts layouts,
        project_files_in-map in_layouts (ending_in (codes ".up") (plain_files layouts)),
        files_with-plain_files (codes ".go") (subdir app_dir (codes "pkg")) gofiles,
      )
      refl

-- The lines that `pushup routes` prints for pages at these paths.
unfoldable pub lines_of : List Bytes → List (Bytes × Bytes)
lines_of [] = []
lines_of (p ∷ ps) = (route_for_page p, p) ∷ lines_of ps

lines-cons :
    (d : Bytes) (ns : List Bytes) (ps : List Bytes)
    → IsFile ns
    → route_lines (map (file_in d) ps) ≡ some (lines_of ps)
    → route_lines (map (file_in d) (path_to ns ∷ ps)) ≡ some (lines_of (path_to ns ∷ ps))
unfolding route_lines lines_of route
lines-cons d ns ps k e = rw (relpath-file_in d ns k, e) refl

-- For the pages that findProjectFiles finds below any directory, `pushup routes` meets no panic: for each,
-- in order, it prints the route of its path below the directory, and that path.
pub route_lines-page_paths :
    (d : Bytes) (pages : Entries)
    → IsNamedAll pages
    → route_lines (map (file_in d) (page_paths (below_all [] pages)))
      ≡ some (lines_of (page_paths (below_all [] pages)))
unfolding page_paths lines_of route_lines
route_lines-page_paths d pages h = lines (below_all [] pages) (below_all-IsFile [] pages tt h)
  where
    lines :
        (fs : List (List Bytes))
        → All IsFile fs
        → route_lines (map (file_in d) (page_paths fs)) ≡ some (lines_of (page_paths fs))
    lines [] h = refl
    lines (ns ∷ fs) (k, h) =
        by_test (equal (ext (path_to ns)) up_file_ext) (lines fs h)
          (lines-cons d ns (page_paths fs) k)
      where
        by_test :
            (t : Bool)
            → route_lines (map (file_in d) (page_paths fs)) ≡ some (lines_of (page_paths fs))
            → (route_lines (map (file_in d) (page_paths fs)) ≡ some (lines_of (page_paths fs))
                → route_lines (map (file_in d) (path_to ns ∷ page_paths fs))
                  ≡ some (lines_of (path_to ns ∷ page_paths fs)))
            → route_lines
                (map (file_in d) (if t then path_to ns ∷ page_paths fs else page_paths fs))
              ≡ some (lines_of (if t then path_to ns ∷ page_paths fs else page_paths fs))
        by_test true e taken = taken e
        by_test false e taken = e

abbrev IsReported : FindResult → Type 0
IsReported (no_subdir d) = (d ≡ codes "layouts") ⊎ (d ≡ codes "pkg")
IsReported (walking_subdir d) = ⊥
IsReported r = Unit
