-- ===== src/Project/Tests/Command.antt =====
-- A run of the build command.
use pushup.Base.{
  ◌≡◌, refl, true, false, some, [], ◌∷◌, codes, equal, has_prefix, has_suffix, split, cons_first,
  join, ext, later_ext, has_slash, ok,
}
use pushup.Parser.Tests.{env_of}
use pushup.Project.Filepath.{
  clean_step, clean_loop, elements, path_of, clean, join_paths, climb, rel_loop, or_dot, rel_roots,
  rel, before_base, dir, last_element, strip_slashes, base,
}
use pushup.Project.Files.{relpath}
use pushup.Project.Find.{
  ProjectFiles, file, folder, no_more, entry, FileSystem, after_pages, after_static, walk_dir,
  go_on, walk_tree, visit_page, visit_static, files_with, project_files_in, find_static,
  find_gofiles, find_pages, find_layouts, find_project_files, rescan_project_files,
}
use pushup.Project.Build.{
  Os, after, ◌then_do◌, attempt, copy_file, compile_files, copy_gofiles, copy_static_to,
  copy_static, copy_runtime, embed_pages, compile_project,
}
use pushup.Project.Written.{written}
use pushup.Project.Program.{build_main, parse_and_build, build_project}
use pushup.Project.BuildDir.{
  project_outputs, code_outputs, gofile_outputs, static_outputs, source_outputs,
}
use pushup.Project.Command.{
  BuildCmd, compile_found, rescan_and_compile, build_cmd_do, build_cmd_do-written,
}

abbrev command : BuildCmd
command = record {
  app_dir = codes "app";
  project_name = codes "blog";
  out_file = [];
  code_gen_only = false;
  out_dir = codes "build";
  parse_only = false;
  apply_optimizations = false;
  embed_source = true;
  pages = [];
}

-- A Go file in each directory, and a style sheet at the root of each tree.
abbrev disk : FileSystem
disk = record {
  read_dir = λ d. ok (record { name = codes "app.go"; is_dir = false } ∷ []);
  tree_at = λ d. some (folder (codes "x") (entry (file (codes "a.css")) no_more));
}

abbrev working : Os
working = record { fails = λ log c. false; contents = λ log path. path }

abbrev found_files : ProjectFiles
found_files = record {
  pages = [];
  layouts = [];
  static =
      record { path = codes "app/static/a.css"; project_files_subdir = codes "app/static" } ∷ [];
  gofiles = codes "app/pkg/app.go" ∷ [];
}

build_cmd_do-written_example :
    written (build_cmd_do working (λ log. disk) some (λ p e. true) (env_of []) 4 command []).1
    ≡ codes "build/app.go"
      ∷ codes "build/static/a.css"
      ∷ codes "build/pushup_support.go"
      ∷ codes "build/cmd/blog/main.go"
      ∷ codes "build/bin/blog"
      ∷ []
unfolding build_project parse_and_build build_main build_cmd_do rescan_and_compile compile_found
    rescan_project_files find_project_files find_layouts find_pages find_gofiles find_static
    after_pages after_static walk_dir go_on walk_tree visit_page visit_static files_with
    project_files_in compile_project compile_files copy_gofiles copy_static copy_static_to
    copy_runtime embed_pages copy_file attempt ◌then_do◌ after join_paths clean elements path_of
    clean_loop clean_step split cons_first join equal has_prefix has_suffix ext later_ext has_slash
    dir base before_base strip_slashes last_element relpath rel rel_roots rel_loop climb or_dot
    project_outputs code_outputs gofile_outputs static_outputs source_outputs written
build_cmd_do-written_example =
    build_cmd_do-written working (λ log. disk) some (λ p e. true) (env_of []) 4 command []
      found_files refl refl
