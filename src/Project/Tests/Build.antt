-- ===== src/Project/Tests/Build.antt =====
-- Runs of `compileProject` on a project with a Go file and a static file.
use pushup.Base.{
  ℕ, ◌≡◌, refl, true, false, List, [], ◌∷◌, Bytes, codes, equal, has_prefix, split, cons_first,
  join, take,
}
use pushup.Parser.Tests.{env_of}
use pushup.Project.Filepath.{
  up, clean_step, clean_loop, elements, path_of, clean, join_paths, climb, rel_loop, or_dot,
  rel_roots, rel, before_base, dir, last_element, strip_slashes, base,
}
use pushup.Project.Files.{relpath}
use pushup.Project.Build.{
  CompileParams, make_dirs, Os, after, ◌then_do◌, attempt, copy_file, compile_files, copy_gofiles,
  copy_static_to, copy_static, copy_runtime, embed_pages, compile_project,
}
use pushup.Project.Written.{written}
use pushup.Project.BuildDir.{
  project_outputs, code_outputs, gofile_outputs, static_outputs, source_outputs,
}
use pushup.Project.Outputs.{compile_project-written, compile_project-stopped}

abbrev params : CompileParams
params = record {
  out_dir = codes "./build";
  parse_only = false;
  files = record {
    pages = [];
    layouts = [];
    static =
        record { path = codes "app/static/css/a.css"; project_files_subdir = codes "app/static" }
        ∷ [];
    gofiles = codes "app/pkg/app.go" ∷ [];
  };
  apply_optimizations = true;
  enable_layout = true;
  embed_source = true;
}

abbrev working : Os
working = record { fails = λ log c. false; contents = λ log path. path }

-- A disk on which no directory can be made.
abbrev full : Os
full = record {
  fails = λ log c. elim c [ make_dirs d ↦ true | c ↦ false ];
  contents = λ log path. [];
}

abbrev outputs : List Bytes
outputs =
    codes "build/app.go" ∷ codes "build/static/css/a.css" ∷ codes "build/pushup_support.go" ∷ []

compile_project-written_example :
    written (compile_project working (λ p e. true) (env_of []) 4 params []).1 ≡ outputs
unfolding compile_project compile_files copy_gofiles copy_static copy_static_to copy_runtime
    embed_pages copy_file attempt ◌then_do◌ after join_paths clean elements path_of clean_loop
    clean_step split cons_first join equal has_prefix dir base before_base strip_slashes
    last_element relpath rel rel_roots rel_loop climb or_dot up project_outputs code_outputs
    gofile_outputs static_outputs source_outputs written
compile_project-written_example =
    compile_project-written working (λ p e. true) (env_of []) 4 params [] refl

compile_project-stopped_example :
    (k : ℕ) × (written (compile_project full (λ p e. true) (env_of []) 4 params []).1
      ≡ take k (project_outputs params))
unfolding written
compile_project-stopped_example = compile_project-stopped full (λ p e. true) (env_of []) 4 params []
