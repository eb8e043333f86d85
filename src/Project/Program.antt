-- ===== src/Project/Program.antt =====
-- main.go: `buildProject`, which writes the main package of the program and has the Go tool build it.
use pushup.Base.{
  arith, Bool, true, false, Option, none, some, List, [], ◌∷◌, ◌++◌, if◌then◌else◌, Bytes, codes,
}
use pushup.Project.Filepath.{join_paths}
use pushup.Project.Build.{
  read_file, make_dirs, create_file, parse_gomod, execute_main, go_build, Os, returned,
  panicked_in_call, Action, ◌then_do◌, end_with, attempt,
}
use pushup.Project.Written.{Writes, Writes-then_do, Writes-returned, Writes-other, Writes-attempt}

-- `verbose`, which only adds prints, is left out.
pub record BuildParams : Type 0 where
  pub project_name : Bytes
  pub compiled_output_dir : Bytes
  pub build_dir : Bytes
  pub out_file : Bytes
  pub code_gen_only : Bool

abbrev pub or_default : Bytes → Bytes → Bytes
or_default [] d = d
or_default (c ∷ s) d = c ∷ s

module _ (b : BuildParams) where
  abbrev pub main_exe_dir : Bytes
  main_exe_dir = join_paths (b.compiled_output_dir ∷ codes "cmd" ∷ b.project_name ∷ [])

  abbrev pub executable : Bytes
  executable = or_default b.out_file (join_paths (b.build_dir ∷ codes "bin" ∷ b.project_name ∷ []))

  -- The files of the program: the source of its main package, and the executable.
  abbrev pub program_outputs : List Bytes
  program_outputs =
      join_paths (main_exe_dir ∷ codes "main.go" ∷ [])
      ∷ (if b.code_gen_only then [] else executable ∷ [])

-- The package of `go.mod`'s module directive, as modfile.Parse reads it, is a parameter; with no such
-- directive, `f.Module` is nil.
module _ (os : Os) (module_path : Bytes → Option Bytes) (b : BuildParams) where
  unfoldable pub build_main : Option Bytes → Action
  unfolding ◌then_do◌ attempt join_paths
  build_main none = end_with panicked_in_call
  build_main (some path) =
      let pkg_name = path ++ codes "/build" in
      let main_go = join_paths (main_exe_dir b ∷ codes "main.go" ∷ []) in
      attempt os (make_dirs (main_exe_dir b))
      then_do attempt os (create_file main_go)
      then_do attempt os (execute_main main_go pkg_name)
      then_do (if b.code_gen_only
          then end_with returned
          else attempt os
              (go_build (executable b) (join_paths (pkg_name ∷ codes "cmd" ∷ b.project_name ∷ []))))

  unfoldable pub parse_and_build : Bytes → Action
  unfolding ◌then_do◌ attempt build_main
  parse_and_build text = attempt os (parse_gomod text) then_do build_main (module_path text)

  unfoldable pub build_project : Action
  unfolding ◌then_do◌ attempt parse_and_build
  build_project log =
      (attempt os (read_file (codes "go.mod"))
          then_do parse_and_build (os.contents log (codes "go.mod")))
        log

  Writes-if :
      (pkg : Bytes)
      → Writes
          (if b.code_gen_only then end_with returned else attempt os (go_build (executable b) pkg))
          (if b.code_gen_only then [] else executable b ∷ [])
  Writes-if pkg = by_test b.code_gen_only
    where
      by_test :
          (t : Bool)
          → Writes
              (if t then end_with returned else attempt os (go_build (executable b) pkg))
              (if t then [] else executable b ∷ [])
      by_test true = Writes-returned
      by_test false = Writes-attempt os (go_build (executable b) pkg)

  build_main-Writes : (path : Option Bytes) → Writes (build_main path) (program_outputs b)
  unfolding build_main
  build_main-Writes none = Writes-other panicked_in_call (program_outputs b) (ground arith)
  build_main-Writes (some path) =
      let pkg_name = path ++ codes "/build" in
      let main_go = join_paths (main_exe_dir b ∷ codes "main.go" ∷ []) in
      let pkg = join_paths (pkg_name ∷ codes "cmd" ∷ b.project_name ∷ []) in
      let last =
        if b.code_gen_only then end_with returned else attempt os (go_build (executable b) pkg) in
      let execute = attempt os (execute_main main_go pkg_name) in
      Writes-then_do (attempt os (make_dirs (main_exe_dir b)))
        (attempt os (create_file main_go) then_do execute then_do last) [] (program_outputs b)
        (Writes-attempt os (make_dirs (main_exe_dir b)))
        (Writes-then_do (attempt os (create_file main_go)) (execute then_do last) []
          (program_outputs b) (Writes-attempt os (create_file main_go))
          (Writes-then_do execute last (main_go ∷ [])
            (if b.code_gen_only then [] else executable b ∷ [])
            (Writes-attempt os (execute_main main_go pkg_name)) (Writes-if pkg)))

  parse_and_build-Writes : (text : Bytes) → Writes (parse_and_build text) (program_outputs b)
  unfolding parse_and_build
  parse_and_build-Writes text =
      Writes-then_do (attempt os (parse_gomod text)) (build_main (module_path text)) []
        (program_outputs b) (Writes-attempt os (parse_gomod text))
        (build_main-Writes (module_path text))

  pub build_project-Writes : Writes build_project (program_outputs b)
  unfolding build_project Writes
  build_project-Writes log =
      Writes-then_do (attempt os (read_file (codes "go.mod")))
        (parse_and_build (os.contents log (codes "go.mod"))) [] (program_outputs b)
        (Writes-attempt os (read_file (codes "go.mod")))
        (parse_and_build-Writes (os.contents log (codes "go.mod"))) log
