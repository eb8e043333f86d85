-- ===== src/Project/Build.antt =====
-- compiler.go: `compileProject`, `compileUpFile` and `copyFile`, as calls of the operating system in their
-- order. Which calls fail, and what a file holds, are parameters that may depend on the calls before.
use pushup.Base.{ℕ, Bool, Option, none, some, List, [], ◌∷◌, ◌++◌, if◌then◌else◌, Bytes, codes}
use pushup.Tree.Node.{Node, SyntaxTree}
use pushup.Parser.State.{SyntaxError}
use pushup.Parser.Env.{Env}
use pushup.Parser.Document.{ParseResult, parsed, parse}
use pushup.Parser.Document
use pushup.Page.Defs.{PageError, Partial}
use pushup.Compile.Defs.{
  UpFileType, up_file_page, up_file_layout, Compiled, layout_code, page_code, parsing_source,
  getting_page, panicked, no_result, compile,
}
use pushup.Project.Filepath.{join_paths, dir, base}
use pushup.Project.Files.{ProjectFile, relpath, compiled_output_path}
use pushup.Project.Find.{ProjectFiles, FindResult}

pub record CompileParams : Type 0 where
  pub out_dir : Bytes
  pub parse_only : Bool
  pub files : ProjectFiles
  pub apply_optimizations : Bool
  pub enable_layout : Bool
  pub embed_source : Bool

-- A call of the operating system, of go/format on generated code, of the debug printer, of modfile.Parse on
-- a file's text, of the template of the program's main.go, or of the Go tool, which builds a package.
pub data Call : Type 0 where
  open_file read_file make_dirs create_file : Bytes → Call
  format_code : Compiled → Call
  write_code : Bytes → Compiled → Call
  write_file : Bytes → Bytes → Call
  execute_template : Bytes → Bool → Call
  print_tree : SyntaxTree → Call
  remove_all parse_gomod : Bytes → Call
  -- the file and the package of the program
  execute_main : Bytes → Bytes → Call
  -- the executable and the package
  go_build : Bytes → Bytes → Call

-- The calls that have succeeded, in their order.
abbrev pub Log : Type 0
Log = List Call

pub record Os : Type 0 where
  pub fails : Log → Call → Bool
  pub contents : Log → Bytes → Bytes

-- How a function ends: it returns nil or an error, the process exits, or it panics; the model may be
-- out of fuel in the parser.
pub data Ending : Type 0 where
  returned : Ending
  call_failed : Call → Ending
  parse_failed : Bytes → SyntaxError → Ending
  page_failed : Bytes → PageError → Ending
  find_failed : FindResult → Ending
  exited panicked_in_call out_of_fuel : Ending

abbrev pub Action : Type 0
Action = Log → Ending × Log

-- An error is returned at once.
unfoldable pub after : Action → Ending × Log → Ending × Log
after b (returned, log) = b log
after b (e, log) = (e, log)

infixr 5 ◌then_do◌
unfoldable pub ◌then_do◌ : Action → Action → Action
unfolding after
(a then_do b) log = after b (a log)

abbrev pub end_with : Ending → Action
end_with e log = (e, log)

module _ (os : Os) where
  unfoldable pub attempt : Call → Action
  attempt c log = if os.fails log c then (call_failed c, log) else (returned, log ++ c ∷ [])

  unfoldable pub copy_file : Bytes → Bytes → Action
  unfolding ◌then_do◌ attempt
  copy_file dest src log =
      (attempt (read_file src) then_do attempt (write_file dest (os.contents log src))) log

  -- The end of `compile`.
  unfoldable pub emit : Bytes → Bytes → Compiled → Action
  unfolding ◌then_do◌ attempt
  emit path dest (parsing_source e) = end_with (parse_failed path e)
  emit path dest (getting_page e) = end_with (page_failed path e)
  emit path dest panicked = end_with panicked_in_call
  emit path dest no_result = end_with out_of_fuel
  emit path dest (layout_code l prints) =
      attempt (format_code (layout_code l prints))
      then_do attempt (write_code dest (layout_code l prints))
  emit path dest (page_code p prints sections partials) =
      attempt (format_code (page_code p prints sections partials))
      then_do attempt (write_code dest (page_code p prints sections partials))

  unfoldable pub print_parsed : Bytes → ParseResult → Action
  unfolding attempt
  print_parsed path (parsed tree) = attempt (print_tree tree)
  print_parsed path (Document.failed e) = end_with (parse_failed path e)
  print_parsed path Document.panicked = end_with panicked_in_call
  print_parsed path Document.no_result = end_with out_of_fuel

module _ (os : Os) (params : CompileParams) where
  unfoldable pub copy_gofiles : List Bytes → Action
  unfolding ◌then_do◌ copy_file join_paths base
  copy_gofiles [] = end_with returned
  copy_gofiles (path ∷ ps) =
      copy_file os (join_paths (params.out_dir ∷ base path ∷ [])) path then_do copy_gofiles ps

  unfoldable pub copy_static_to : ProjectFile → Option Bytes → Action
  unfolding ◌then_do◌ attempt copy_file join_paths dir base
  copy_static_to f none = end_with panicked_in_call
  copy_static_to f (some path) =
      let dest_dir = join_paths (params.out_dir ∷ codes "static" ∷ dir path ∷ []) in
      attempt os (make_dirs dest_dir)
      then_do copy_file os (join_paths (dest_dir ∷ base path ∷ [])) f.path

  unfoldable pub copy_static : List ProjectFile → Action
  unfolding ◌then_do◌ copy_static_to relpath
  copy_static [] = end_with returned
  copy_static (f ∷ fs) = copy_static_to f (relpath f) then_do copy_static fs

  unfoldable pub copy_runtime : Action
  unfolding ◌then_do◌ attempt join_paths
  copy_runtime =
      let dest = join_paths (params.out_dir ∷ codes "pushup_support.go" ∷ []) in
      attempt os (create_file dest) then_do attempt os (execute_template dest params.enable_layout)

  unfoldable pub embed_to : ProjectFile → Option Bytes → Action
  unfolding ◌then_do◌ attempt copy_file join_paths dir
  embed_to f none = end_with panicked_in_call
  embed_to f (some path) =
      let src_dir = join_paths (params.out_dir ∷ codes "src" ∷ []) in
      attempt os (make_dirs (join_paths (src_dir ∷ codes "pages" ∷ dir path ∷ [])))
      then_do copy_file os (join_paths (src_dir ∷ codes "pages" ∷ path ∷ [])) f.path

  unfoldable pub embed_pages : List ProjectFile → Action
  unfolding ◌then_do◌ embed_to relpath
  embed_pages [] = end_with returned
  embed_pages (f ∷ fs) = embed_to f (relpath f) then_do embed_pages fs

module _ (os : Os) (same_node : Partial → Node → Bool) (env : Env) (fuel : ℕ)
    (params : CompileParams) where
  unfoldable pub compile_opened : ProjectFile → UpFileType → Bytes → Action
  unfolding emit compile
  compile_opened f ftype dest log =
      emit os f.path dest
        (compile same_node env fuel ftype params.apply_optimizations (os.contents log f.path)) log

  unfoldable pub compile_to : ProjectFile → UpFileType → Option Bytes → Action
  unfolding ◌then_do◌ attempt compile_opened join_paths dir
  compile_to f ftype none = end_with panicked_in_call
  compile_to f ftype (some name) =
      let dest = join_paths (params.out_dir ∷ name ∷ []) in
      attempt os (make_dirs (dir dest))
      then_do attempt os (create_file dest)
      then_do attempt os (read_file f.path)
      then_do compile_opened f ftype dest

  unfoldable pub compile_up_file : ProjectFile → UpFileType → Action
  unfolding ◌then_do◌ attempt compile_to compiled_output_path
  compile_up_file f ftype =
      attempt os (open_file f.path) then_do compile_to f ftype (compiled_output_path f ftype)

  unfoldable pub compile_files : List ProjectFile → UpFileType → Action
  unfolding ◌then_do◌ compile_up_file
  compile_files [] ftype = end_with returned
  compile_files (f ∷ fs) ftype = compile_up_file f ftype then_do compile_files fs ftype

  unfoldable pub parse_files : List ProjectFile → Action
  unfolding ◌then_do◌ attempt print_parsed parse
  parse_files [] = end_with exited
  parse_files (f ∷ fs) =
      attempt os (read_file f.path)
      then_do (λ log. print_parsed os f.path (parse env fuel (os.contents log f.path)) log)
      then_do parse_files fs

  unfoldable pub compile_project : Action
  unfolding ◌then_do◌ compile_files copy_gofiles copy_static copy_runtime embed_pages parse_files
  compile_project =
      let files = params.files in
      if params.parse_only
      then parse_files (files.pages ++ files.layouts)
      else compile_files files.layouts up_file_layout
        then_do compile_files files.pages up_file_page
        then_do copy_gofiles os params files.gofiles
        then_do copy_static os params files.static
        then_do copy_runtime os params
        then_do (if params.embed_source
            then embed_pages os params files.pages
            else end_with returned)
