-- ===== src/Project/Tests.antt =====
-- Runs of the functions on the files of a project.
mod Build
mod Command
mod PageCode
use pushup.Base.{
  ℕ, ◌≡◌, refl, Bool, true, false, not, ◌&&◌, Option, none, some, List, [], ◌∷◌, ◌++◌, map, ◌==◌,
  if◌then◌else◌, Bytes, codes, All, Lacks, equal, has_prefix, has_suffix, split, cons_first, join,
  all, ok, err, Result, trim_suffix, ext, later_ext, has_slash, arith,
}
use pushup.Compile.Defs.{UpFileType, up_file_page, up_file_layout}
use pushup.Runtime.Route.{regex_pat_from_route}
use pushup.Project.Filepath.{
  dot, dot_dot, up, clean_step, clean_loop, elements, path_of, clean, join_paths, climb, rel_loop,
  or_dot, rel_roots, rel, before_base, dir, last_element, strip_slashes, base,
}
use pushup.Project.Files.{
  ProjectFile, relpath, dirs_of, stem, with_colon, with_colons, close_index, closing_slash,
  route_for_page, route_for_partial, route, escape_dollar, join_by, output_name,
  compiled_output_path,
}
use pushup.Project.Clean.{IsName}
use pushup.Project.Rel.{relpath-join_paths}
use pushup.Project.Below.{in_dirs}
use pushup.Project.Pages.{page_route, route_for_page-in_dirs}
use pushup.Project.Patterns.{param_names, page_pattern, regex_pat_from_route-route_for_page}
use pushup.Project.Walk.{below_all, IsNamed, IsNamedAll, path_to}
use pushup.Project.Find.{
  ProjectFiles, DirError, not_exist, DirEntry, Entry, Entries, file, folder, no_more, entry,
  FileSystem, found, no_subdir, find_panicked, files_with, project_files_in, walk_dir, visit_page,
  after_pages, up_file_ext, subdir, find_static, find_gofiles, find_pages, find_layouts,
  find_project_files, route_lines,
}
use pushup.Project.Found.{
  file_in, plain_files, ending_in, page_paths, lines_of, find_project_files_lem,
  route_lines-page_paths,
}

abbrev pages_dir : Bytes
pages_dir = codes "../blog/app/pages"

-- Paths that Clean and Rel change.
clean_dots : clean (codes "a//./b/../../../c/") ≡ codes "../c"
unfolding clean elements path_of clean_loop clean_step up split cons_first join equal has_prefix
clean_dots = refl

rel_up : rel (codes "/app/pages") (codes "/app/static/a.css") ≡ some (codes "../static/a.css")
unfolding rel clean elements path_of clean_loop clean_step up split cons_first join equal has_prefix
    rel_roots rel_loop climb or_dot
rel_up = refl

index_route : route_for_page (codes "users/$id/index.up") ≡ codes "/users/:id/"
unfolding route_for_page clean elements path_of clean_loop clean_step split cons_first join equal
    has_prefix dir base before_base strip_slashes last_element dirs_of stem trim_suffix has_suffix
    ext later_ext has_slash with_colons with_colon closing_slash close_index
index_route = refl

partial_route :
    route_for_partial (codes "users/index.up") (codes "list/row") ≡ codes "/users/list/row"
unfolding route_for_partial route_for_page clean elements path_of clean_loop clean_step split
    cons_first join equal has_prefix dir base before_base strip_slashes last_element dirs_of stem
    trim_suffix has_suffix ext later_ext has_slash with_colons with_colon closing_slash close_index
partial_route = refl

-- Two pages whose code goes to one file.
one_output : output_name up_file_page (codes "a/b.up") ≡ output_name up_file_page (codes "a__b.up")
unfolding output_name escape_dollar join_by clean elements path_of clean_loop clean_step split
    cons_first join equal has_prefix dir base before_base strip_slashes last_element dirs_of stem
    trim_suffix has_suffix ext later_ext has_slash
one_output = refl

-- Two pages that have one route.
one_route : route_for_page (codes "$id.up") ≡ route_for_page (codes ":id.up")
unfolding route_for_page clean elements path_of clean_loop clean_step split cons_first join equal
    has_prefix dir base before_base strip_slashes last_element dirs_of stem trim_suffix has_suffix
    ext later_ext has_slash with_colons with_colon closing_slash close_index
one_route = refl

no_slash : (s : Bytes) → all (λ c. not (c == b'/')) s ≡ true → Lacks b'/' s
no_slash [] e = tt
no_slash (c ∷ s) e = (ground (arith, e), no_slash s (ground (arith, e)))

abbrev dirs : List Bytes
dirs = codes "users" ∷ codes "$id" ∷ []

users-IsName : IsName (codes "users")
unfolding equal
users-IsName = (no_slash (codes "users") refl, refl, refl, refl)

id-IsName : IsName (codes "$id")
unfolding equal
id-IsName = (no_slash (codes "$id") refl, refl, refl, refl)

edit-IsName : IsName (codes "edit.up")
unfolding equal
edit-IsName = (no_slash (codes "edit.up") refl, refl, refl, refl)

relpath-join_paths_example :
    relpath (record {
      path = join_paths (pages_dir ∷ codes "users/$id/edit.up" ∷ []);
      project_files_subdir = pages_dir;
    })
    ≡ some (codes "users/$id/edit.up")
unfolding join
relpath-join_paths_example =
    relpath-join_paths pages_dir (codes "users") (codes "$id" ∷ codes "edit.up" ∷ [])
      (users-IsName, (id-IsName, (edit-IsName, tt)))

route_for_page-in_dirs_example :
    route_for_page (codes "users/$id/edit.up") ≡ codes "/users/:id/edit"
unfolding join page_route equal with_colon has_prefix stem trim_suffix has_suffix ext later_ext
    has_slash
route_for_page-in_dirs_example =
    route_for_page-in_dirs dirs (codes "edit.up") (users-IsName, (id-IsName, tt)) edit-IsName

regex_pat_from_route-route_for_page_example :
    regex_pat_from_route (route_for_page (codes "users/$id/edit.up"))
    ≡ record { pat = codes "/users/([^/]+)/edit"; slugs = codes "id" ∷ [] }
unfolding join page_pattern param_names equal has_prefix stem trim_suffix has_suffix ext later_ext
    has_slash
regex_pat_from_route-route_for_page_example =
    regex_pat_from_route-route_for_page dirs (codes "edit.up") (users-IsName, (id-IsName, tt))
      edit-IsName

-- The name of a parameter does not end at a dot.
dotted_route : route_for_page (codes "$id.v2.up") ≡ codes "/:id.v2"
unfolding route_for_page clean elements path_of clean_loop clean_step split cons_first join equal
    has_prefix dir base before_base strip_slashes last_element dirs_of stem trim_suffix has_suffix
    ext later_ext has_slash with_colons with_colon closing_slash close_index
dotted_route = refl

dotted_pattern :
    regex_pat_from_route (codes "/:id.v2")
    ≡ record { pat = codes "/([^/]+)"; slugs = codes "id.v2" ∷ [] }
unfolding regex_pat_from_route split has_prefix join
dotted_pattern = refl

abbrev page_tree : Entries
page_tree =
    entry
      (folder (codes "users") (entry (file (codes "edit.up")) (entry (file (codes "$id")) no_more)))
      no_more

abbrev static_tree : Entries
static_tree = entry (file (codes "$id")) no_more

abbrev layout_entries : List DirEntry
layout_entries =
    record { name = codes "default.up"; is_dir = false }
    ∷ record { name = codes "old.up"; is_dir = true }
    ∷ []

-- A project in the directory `app`, with and without its pages.
abbrev disk : Bool → FileSystem
disk has_pages = record {
  read_dir = λ d. if equal d (codes "app/layouts") then ok layout_entries else ok [];
  tree_at = λ d.
      if equal d (codes "app/pages")
      then (if has_pages then some (folder (codes "pages") page_tree) else none)
      else some (folder (codes "static") static_tree);
}

no_pages : find_project_files (disk false) (codes "app") ≡ find_panicked
unfolding find_project_files find_layouts find_pages after_pages walk_dir visit_page join_paths
    clean elements path_of clean_loop clean_step split cons_first join equal has_prefix
no_pages = refl

page_tree-IsNamed : IsNamedAll page_tree
unfolding IsNamed
page_tree-IsNamed = ((users-IsName, (edit-IsName, (id-IsName, tt))), tt)

find_project_files_lem_example :
    find_project_files (disk true) (codes "app")
    ≡ found (record {
      pages = file_in (codes "app/pages") (codes "users/edit.up") ∷ [];
      layouts =
          record {
            path = codes "app/layouts/default.up";
            project_files_subdir = codes "app/layouts";
          }
          ∷ [];
      static = file_in (codes "app/static") (codes "$id") ∷ [];
      gofiles = [];
    })
unfolding join_paths clean elements path_of clean_loop clean_step split cons_first join equal
    has_prefix has_suffix plain_files ending_in page_paths below_all ext later_ext has_slash IsNamed
find_project_files_lem_example =
    find_project_files_lem (disk true) (codes "app") layout_entries [] (codes "pages")
      (codes "static") page_tree static_tree refl refl refl refl page_tree-IsNamed (id-IsName, tt)

route_lines-page_paths_example :
    route_lines (file_in pages_dir (codes "users/edit.up") ∷ [])
    ≡ some ((route_for_page (codes "users/edit.up"), codes "users/edit.up") ∷ [])
unfolding join page_paths below_all lines_of equal ext later_ext has_slash
route_lines-page_paths_example = route_lines-page_paths pages_dir page_tree page_tree-IsNamed

abbrev empty_disk : FileSystem
empty_disk = record { read_dir = λ d. err not_exist; tree_at = λ d. none }
