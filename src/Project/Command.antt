-- ===== src/Project/Command.antt =====
-- main.go: `buildCmd.do`, behind the reading of the flags.
use pushup.Base.{
  ℕ, ◌≡◌, refl, sym, ap, append-nil, arith, ◌∙◌, Bool, true, false, List, [], ◌∷◌, ◌++◌,
  if◌then◌else◌, Bytes, Option,
}
use pushup.Tree.Node.{Node}
use pushup.Page.Defs.{Partial}
use pushup.Parser.Env.{Env}
use pushup.Project.Find.{
  ProjectFiles, FindResult, found, no_subdir, reading_subdir, walking_subdir, find_panicked,
  FileSystem, rescan_project_files,
}
use pushup.Project.Build.{
  CompileParams, remove_all, Log, Os, Ending, returned, call_failed, after, find_failed,
  panicked_in_call, Action, ◌then_do◌, end_with, attempt, compile_project,
}
use pushup.Project.Written.{written, written-append, Writes, Writes-then_do, Writes-returned}
use pushup.Project.Program.{BuildParams, build_project, program_outputs, build_project-Writes}
use pushup.Project.BuildDir.{project_outputs}
use pushup.Project.Outputs.{compile_project-Writes}

pub record BuildCmd : Type 0 where
  pub app_dir : Bytes
  pub project_name : Bytes
  pub out_dir : Bytes
  pub out_file : Bytes
  pub code_gen_only : Bool
  pub parse_only : Bool
  pub apply_optimizations : Bool
  pub embed_source : Bool
  -- of the command line
  pub pages : List Bytes

-- `len(b.pages) == 0`
abbrev pub no_pages : List Bytes → Bool
no_pages [] = true
no_pages (p ∷ ps) = false

abbrev pub compile_params : BuildCmd → ProjectFiles → CompileParams
compile_params b files = record {
  out_dir = b.out_dir;
  parse_only = b.parse_only;
  files = files;
  apply_optimizations = b.apply_optimizations;
  enable_layout = no_pages b.pages;
  embed_source = b.embed_source;
}

abbrev pub build_params : BuildCmd → BuildParams
build_params b = record {
  project_name = b.project_name;
  compiled_output_dir = b.out_dir;
  build_dir = b.out_dir;
  out_file = b.out_file;
  code_gen_only = b.code_gen_only;
}

-- The file system may depend on the calls before.
module _ (os : Os) (fs : Log → FileSystem) (module_path : Bytes → Option Bytes)
    (same_node : Partial → Node → Bool) (env : Env) (fuel : ℕ) (b : BuildCmd) where
  unfoldable pub compile_found : FindResult → Action
  unfolding ◌then_do◌ attempt compile_project build_project
  compile_found (found files) =
      compile_project os same_node env fuel (compile_params b files)
      then_do (if b.parse_only
          then end_with returned
          else build_project os module_path (build_params b))
  compile_found find_panicked = end_with panicked_in_call
  compile_found (no_subdir d) = end_with (find_failed (no_subdir d))
  compile_found (reading_subdir d) = end_with (find_failed (reading_subdir d))
  compile_found (walking_subdir d) = end_with (find_failed (walking_subdir d))

  unfoldable pub rescan_and_compile : Action
  unfolding rescan_project_files compile_found
  rescan_and_compile log = compile_found (rescan_project_files (fs log) b.app_dir b.pages) log

  -- `do`
  unfoldable pub build_cmd_do : Action
  unfolding ◌then_do◌ attempt rescan_and_compile
  build_cmd_do = attempt os (remove_all b.out_dir) then_do rescan_and_compile

  abbrev program : List Bytes
  program = program_outputs (build_params b)

  Writes-build :
      Writes
        (if b.parse_only then end_with returned else build_project os module_path (build_params b))
        (if b.parse_only then [] else program)
  Writes-build = by_test b.parse_only
    where
      by_test :
          (t : Bool)
          → Writes
              (if t then end_with returned else build_project os module_path (build_params b))
              (if t then [] else program)
      by_test true = Writes-returned
      by_test false = build_project-Writes os module_path (build_params b)

  abbrev pub all_outputs : ProjectFiles → List Bytes
  all_outputs files =
      if b.parse_only then [] else project_outputs (compile_params b files) ++ program

  compile_found-Writes :
      (files : ProjectFiles)
      → Writes (compile_found (found files)) (
          (if b.parse_only then [] else project_outputs (compile_params b files))
          ++ (if b.parse_only then [] else program))
  unfolding compile_found
  compile_found-Writes files =
      Writes-then_do (compile_project os same_node env fuel (compile_params b files))
        (if b.parse_only then end_with returned else build_project os module_path (build_params b))
        (if b.parse_only then [] else project_outputs (compile_params b files))
        (if b.parse_only then [] else program)
        (compile_project-Writes os same_node env fuel (compile_params b files)) Writes-build

  outputs-all :
      (files : ProjectFiles)
      → (if b.parse_only then [] else project_outputs (compile_params b files))
          ++ (if b.parse_only then [] else program)
        ≡ all_outputs files
  outputs-all files = by_test b.parse_only
    where
      by_test :
          (t : Bool)
          → (if t then [] else project_outputs (compile_params b files))
              ++ (if t then [] else program)
            ≡ (if t then [] else project_outputs (compile_params b files) ++ program)
      by_test true = refl
      by_test false = refl

  -- If the build command returns no error, and the scan behind the removal of the build directory found
  -- some files, it has written just the outputs of these, then the program's main.go, and then, unless it
  -- only generates code, the executable: nothing where it only parses.
  pub build_cmd_do-written :
      (log : Log) (files : ProjectFiles)
      → rescan_project_files (fs (log ++ remove_all b.out_dir ∷ [])) b.app_dir b.pages ≡ found files
      → (build_cmd_do log).0 ≡ returned
      → written (build_cmd_do log).1 ≡ written log ++ all_outputs files
  unfolding build_cmd_do rescan_and_compile after attempt ◌then_do◌ written Writes
  build_cmd_do-written log files e h = by_test (os.fails log (remove_all b.out_dir)) h
    where
      by_test :
          (t : Bool)
          → let r : Ending × Log =
              if t
              then (call_failed (remove_all b.out_dir), log)
              else (returned, log ++ remove_all b.out_dir ∷ []) in
            (after rescan_and_compile r).0 ≡ returned
            → written (after rescan_and_compile r).1 ≡ written log ++ all_outputs files
      by_test true h = ground (arith, h)
      by_test false h =
          let behind = log ++ remove_all b.out_dir ∷ [] in
          let outs = all_outputs files in
          let same = ap (λ r. compile_found r behind) e in
          ap (λ r. written r.1) same
          ∙ (compile_found-Writes files behind).0 (sym (ap (λ r. r.0) same) ∙ h)
          ∙ ap (λ l. written behind ++ l) (outputs-all files)
          ∙ ap (λ l. l ++ outs)
              (written-append log (remove_all b.out_dir ∷ []) ∙ append-nil (written log))
