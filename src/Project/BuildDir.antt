-- ===== src/Project/BuildDir.antt =====
-- compiler.go: the files of the build directory of a project, in the order in which `compileProject`
-- writes them.
use pushup.Base.{Option, none, some, List, [], ◌∷◌, ◌++◌, if◌then◌else◌, Bytes, codes}
use pushup.Compile.Defs.{UpFileType, up_file_page, up_file_layout}
use pushup.Project.Filepath.{join_paths, dir, base}
use pushup.Project.Files.{ProjectFile, relpath, compiled_output_path}
use pushup.Project.Build.{CompileParams}

module _ (params : CompileParams) where
  abbrev pub code_dest : Option Bytes → List Bytes
  code_dest none = []
  code_dest (some name) = join_paths (params.out_dir ∷ name ∷ []) ∷ []

  unfoldable pub code_outputs : List ProjectFile → UpFileType → List Bytes
  unfolding compiled_output_path
  code_outputs [] ftype = []
  code_outputs (f ∷ fs) ftype = code_dest (compiled_output_path f ftype) ++ code_outputs fs ftype

  unfoldable pub gofile_outputs : List Bytes → List Bytes
  unfolding join_paths base
  gofile_outputs [] = []
  gofile_outputs (p ∷ ps) = join_paths (params.out_dir ∷ base p ∷ []) ∷ gofile_outputs ps

  abbrev pub static_dest : Option Bytes → List Bytes
  static_dest none = []
  static_dest (some p) =
      join_paths (join_paths (params.out_dir ∷ codes "static" ∷ dir p ∷ []) ∷ base p ∷ []) ∷ []

  unfoldable pub static_outputs : List ProjectFile → List Bytes
  unfolding relpath
  static_outputs [] = []
  static_outputs (f ∷ fs) = static_dest (relpath f) ++ static_outputs fs

  abbrev pub source_dest : Option Bytes → List Bytes
  source_dest none = []
  source_dest (some p) =
      join_paths (join_paths (params.out_dir ∷ codes "src" ∷ []) ∷ codes "pages" ∷ p ∷ []) ∷ []

  unfoldable pub source_outputs : List ProjectFile → List Bytes
  unfolding relpath
  source_outputs [] = []
  source_outputs (f ∷ fs) = source_dest (relpath f) ++ source_outputs fs

  -- The files of a project's build directory.
  unfoldable pub project_outputs : List Bytes
  unfolding code_outputs gofile_outputs static_outputs source_outputs join_paths
  project_outputs =
      code_outputs params.files.layouts up_file_layout
      ++ (code_outputs params.files.pages up_file_page
          ++ (gofile_outputs params.files.gofiles
              ++ (static_outputs params.files.static
                  ++ (join_paths (params.out_dir ∷ codes "pushup_support.go" ∷ [])
                      ∷ (if params.embed_source then source_outputs params.files.pages else [])))))
