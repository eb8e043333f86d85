-- ===== src/Project/Outputs.antt =====
-- compiler.go: the files that `compileProject` writes.
use pushup.Base.{
  ℕ, ◌≡◌, Bool, true, false, Option, none, some, List, [], ◌∷◌, ◌++◌, if◌then◌else◌, take, Bytes,
  codes, arith,
}
use pushup.Tree.Node.{Node}
use pushup.Page.Defs.{Partial}
use pushup.Parser.Env.{Env}
use pushup.Compile.Defs.{
  UpFileType, up_file_page, up_file_layout, Compiled, layout_code, page_code, parsing_source,
  getting_page, panicked, no_result, compile,
}
use pushup.Parser.Document.{ParseResult, parsed, parse}
use pushup.Parser.Document
use pushup.Project.Filepath.{join_paths, dir, base}
use pushup.Project.Files.{ProjectFile, relpath, compiled_output_path}
use pushup.Project.Build.{
  CompileParams, Call, write_code, write_file, execute_template, open_file, read_file, make_dirs,
  create_file, format_code, print_tree, parse_failed, page_failed, panicked_in_call, out_of_fuel,
  Log, Os, returned, Action, ◌then_do◌, end_with, attempt, copy_file, emit, compile_opened,
  compile_to, compile_up_file, compile_files, copy_gofiles, copy_static_to, copy_static,
  copy_runtime, embed_to, embed_pages, print_parsed, parse_files, exited, compile_project,
}
use pushup.Project.Written.{
  written, Writes, Writes-then_do, Writes-returned, Writes-other, Writes-attempt,
}
use pushup.Project.BuildDir.{
  code_dest, code_outputs, gofile_outputs, static_dest, static_outputs, source_dest, source_outputs,
  project_outputs,
}

module _ (os : Os) where
  -- A call that writes no file, with an action behind it.
  Writes-first :
      (c : Call) (b : Action) (ys : List Bytes)
      → Writes (attempt os c) []
      → Writes b ys
      → Writes (attempt os c then_do b) ys
  Writes-first c b ys h k = Writes-then_do (attempt os c) b [] ys h k

  Writes-copy_file : (dest src : Bytes) → Writes (copy_file os dest src) (dest ∷ [])
  unfolding Writes copy_file
  Writes-copy_file dest src log =
      Writes-first (read_file src) (attempt os (write_file dest (os.contents log src))) (dest ∷ [])
        (Writes-attempt os (read_file src))
        (Writes-attempt os (write_file dest (os.contents log src))) log

  Writes-emit : (path dest : Bytes) (code : Compiled) → Writes (emit os path dest code) (dest ∷ [])
  unfolding emit
  Writes-emit path dest (parsing_source e) =
      Writes-other (parse_failed path e) (dest ∷ []) (ground arith)
  Writes-emit path dest (getting_page e) =
      Writes-other (page_failed path e) (dest ∷ []) (ground arith)
  Writes-emit path dest panicked = Writes-other panicked_in_call (dest ∷ []) (ground arith)
  Writes-emit path dest no_result = Writes-other out_of_fuel (dest ∷ []) (ground arith)
  Writes-emit path dest (layout_code l prints) =
      let code = layout_code l prints in
      Writes-first (format_code code) (attempt os (write_code dest code)) (dest ∷ [])
        (Writes-attempt os (format_code code)) (Writes-attempt os (write_code dest code))
  Writes-emit path dest (page_code l prints sections partials) =
      let code = page_code l prints sections partials in
      Writes-first (format_code code) (attempt os (write_code dest code)) (dest ∷ [])
        (Writes-attempt os (format_code code)) (Writes-attempt os (write_code dest code))

  module _ (params : CompileParams) where
    Writes-copy_gofiles :
        (ps : List Bytes) → Writes (copy_gofiles os params ps) (gofile_outputs params ps)
    unfolding copy_gofiles gofile_outputs
    Writes-copy_gofiles [] = Writes-returned
    Writes-copy_gofiles (p ∷ ps) =
        let dest = join_paths (params.out_dir ∷ base p ∷ []) in
        Writes-then_do (copy_file os dest p) (copy_gofiles os params ps) (dest ∷ [])
          (gofile_outputs params ps) (Writes-copy_file dest p) (Writes-copy_gofiles ps)

    Writes-copy_static_to :
        (f : ProjectFile) (path : Option Bytes)
        → Writes (copy_static_to os params f path) (static_dest params path)
    unfolding copy_static_to
    Writes-copy_static_to f none = Writes-other panicked_in_call [] (ground arith)
    Writes-copy_static_to f (some path) =
        let d = join_paths (params.out_dir ∷ codes "static" ∷ dir path ∷ []) in
        let dest = join_paths (d ∷ base path ∷ []) in
        Writes-first (make_dirs d) (copy_file os dest f.path) (dest ∷ [])
          (Writes-attempt os (make_dirs d)) (Writes-copy_file dest f.path)

    Writes-copy_static :
        (fs : List ProjectFile) → Writes (copy_static os params fs) (static_outputs params fs)
    unfolding copy_static static_outputs
    Writes-copy_static [] = Writes-returned
    Writes-copy_static (f ∷ fs) =
        Writes-then_do (copy_static_to os params f (relpath f)) (copy_static os params fs)
          (static_dest params (relpath f)) (static_outputs params fs)
          (Writes-copy_static_to f (relpath f)) (Writes-copy_static fs)

    Writes-copy_runtime :
        Writes
          (copy_runtime os params)
          (join_paths (params.out_dir ∷ codes "pushup_support.go" ∷ []) ∷ [])
    unfolding copy_runtime
    Writes-copy_runtime =
        let dest = join_paths (params.out_dir ∷ codes "pushup_support.go" ∷ []) in
        Writes-first (create_file dest) (attempt os (execute_template dest params.enable_layout))
          (dest ∷ []) (Writes-attempt os (create_file dest))
          (Writes-attempt os (execute_template dest params.enable_layout))

    Writes-embed_to :
        (f : ProjectFile) (path : Option Bytes)
        → Writes (embed_to os params f path) (source_dest params path)
    unfolding embed_to
    Writes-embed_to f none = Writes-other panicked_in_call [] (ground arith)
    Writes-embed_to f (some path) =
        let src = join_paths (params.out_dir ∷ codes "src" ∷ []) in
        let d = join_paths (src ∷ codes "pages" ∷ dir path ∷ []) in
        let dest = join_paths (src ∷ codes "pages" ∷ path ∷ []) in
        Writes-first (make_dirs d) (copy_file os dest f.path) (dest ∷ [])
          (Writes-attempt os (make_dirs d)) (Writes-copy_file dest f.path)

    Writes-embed_pages :
        (fs : List ProjectFile) → Writes (embed_pages os params fs) (source_outputs params fs)
    unfolding embed_pages source_outputs
    Writes-embed_pages [] = Writes-returned
    Writes-embed_pages (f ∷ fs) =
        Writes-then_do (embed_to os params f (relpath f)) (embed_pages os params fs)
          (source_dest params (relpath f)) (source_outputs params fs)
          (Writes-embed_to f (relpath f)) (Writes-embed_pages fs)

module _ (os : Os) (same_node : Partial → Node → Bool) (env : Env) (fuel : ℕ)
    (params : CompileParams) where
  Writes-compile_to :
      (f : ProjectFile) (ftype : UpFileType) (name : Option Bytes)
      → Writes (compile_to os same_node env fuel params f ftype name) (code_dest params name)
  unfolding compile_to compile_opened Writes
  Writes-compile_to f ftype none = Writes-other panicked_in_call [] (ground arith)
  Writes-compile_to f ftype (some name) =
      let dest = join_paths (params.out_dir ∷ name ∷ []) in
      let outs = dest ∷ [] in
      let opened = compile_opened os same_node env fuel params f ftype dest in
      let read = attempt os (read_file f.path) then_do opened in
      let create = attempt os (create_file dest) then_do read in
      Writes-first os (make_dirs (dir dest)) create outs (Writes-attempt os (make_dirs (dir dest)))
        (Writes-first os (create_file dest) read outs (Writes-attempt os (create_file dest)) (
          Writes-first os (read_file f.path) opened outs (Writes-attempt os (read_file f.path))
            λ log.
              Writes-emit os f.path dest
                (compile same_node env fuel ftype params.apply_optimizations
                  (os.contents log f.path))
                log))

  Writes-compile_files :
      (fs : List ProjectFile) (ftype : UpFileType)
      → Writes (compile_files os same_node env fuel params fs ftype) (code_outputs params fs ftype)
  unfolding compile_files code_outputs compile_up_file
  Writes-compile_files [] ftype = Writes-returned
  Writes-compile_files (f ∷ fs) ftype =
      let name = compiled_output_path f ftype in
      Writes-then_do (compile_up_file os same_node env fuel params f ftype)
        (compile_files os same_node env fuel params fs ftype) (code_dest params name)
        (code_outputs params fs ftype)
        (Writes-first os (open_file f.path) (compile_to os same_node env fuel params f ftype name)
          (code_dest params name) (Writes-attempt os (open_file f.path))
          (Writes-compile_to f ftype name))
        (Writes-compile_files fs ftype)

  Writes-print_parsed : (path : Bytes) (r : ParseResult) → Writes (print_parsed os path r) []
  unfolding print_parsed
  Writes-print_parsed path (parsed tree) = Writes-attempt os (print_tree tree)
  Writes-print_parsed path (Document.failed e) =
      Writes-other (parse_failed path e) [] (ground arith)
  Writes-print_parsed path Document.panicked = Writes-other panicked_in_call [] (ground arith)
  Writes-print_parsed path Document.no_result = Writes-other out_of_fuel [] (ground arith)

  Writes-parse_files :
      (fs : List ProjectFile) → Writes (parse_files os same_node env fuel params fs) []
  unfolding parse_files Writes
  Writes-parse_files [] = Writes-other exited [] (ground arith)
  Writes-parse_files (f ∷ fs) =
      let print : Action =
        λ log. print_parsed os f.path (parse env fuel (os.contents log f.path)) log in
      let rest = parse_files os same_node env fuel params fs in
      Writes-first os (read_file f.path) (print then_do rest) []
        (Writes-attempt os (read_file f.path))
        (Writes-then_do print rest [] []
          (λ log. Writes-print_parsed f.path (parse env fuel (os.contents log f.path)) log)
          (Writes-parse_files fs))

  abbrev sources : List Bytes
  sources = if params.embed_source then source_outputs params params.files.pages else []

  Writes-embed :
      Writes
        (if params.embed_source
          then embed_pages os params params.files.pages
          else end_with returned)
        sources
  Writes-embed = by_test params.embed_source
    where
      by_test :
          (t : Bool)
          → Writes
              (if t then embed_pages os params params.files.pages else end_with returned)
              (if t then source_outputs params params.files.pages else [])
      by_test true = Writes-embed_pages os params params.files.pages
      by_test false = Writes-returned

  Writes-files :
      Writes
        (compile_files os same_node env fuel params params.files.layouts up_file_layout
          then_do compile_files os same_node env fuel params params.files.pages up_file_page
          then_do copy_gofiles os params params.files.gofiles
          then_do copy_static os params params.files.static
          then_do copy_runtime os params
          then_do (if params.embed_source
              then embed_pages os params params.files.pages
              else end_with returned))
        (project_outputs params)
  unfolding project_outputs
  Writes-files = Writes-then_do _ _ _ _ (Writes-compile_files params.files.layouts up_file_layout) (
      Writes-then_do _ _ _ _ (Writes-compile_files params.files.pages up_file_page) (
        Writes-then_do _ _ _ _ (Writes-copy_gofiles os params params.files.gofiles) (
          Writes-then_do _ _ _ _ (Writes-copy_static os params params.files.static)
            (Writes-then_do _ _ _ _ (Writes-copy_runtime os params) Writes-embed))))

  pub compile_project-Writes :
      Writes
        (compile_project os same_node env fuel params)
        (if params.parse_only then [] else project_outputs params)
  unfolding compile_project
  compile_project-Writes = by_test params.parse_only
    where
      by_test :
          (t : Bool)
          → Writes
              (if t
                then parse_files os same_node env fuel params
                    (params.files.pages ++ params.files.layouts)
                else (compile_files os same_node env fuel params params.files.layouts up_file_layout
                    then_do compile_files os same_node env fuel params params.files.pages
                        up_file_page
                    then_do copy_gofiles os params params.files.gofiles
                    then_do copy_static os params params.files.static
                    then_do copy_runtime os params
                    then_do (if params.embed_source
                        then embed_pages os params params.files.pages
                        else end_with returned)))
              (if t then [] else project_outputs params)
      by_test true = Writes-parse_files (params.files.pages ++ params.files.layouts)
      by_test false = Writes-files

  -- If compileProject returns no error, whatever the calls of the operating system give, it has written
  -- just the files of the build directory, in this order: the code of the layouts and of the pages, the Go
  -- files, the static files, the runtime, and the sources of the pages where they are embedded; and nothing
  -- where it only parses. A path stands in that order once for each file that it is made from.
  pub compile_project-written :
      (log : Log)
      → (compile_project os same_node env fuel params log).0 ≡ returned
      → written (compile_project os same_node env fuel params log).1
        ≡ written log ++ (if params.parse_only then [] else project_outputs params)
  unfolding Writes
  compile_project-written log e = (compile_project-Writes log).0 e

  -- However compileProject ends, with an error or a panic too, it has written some of these files, from
  -- the first on, and no other file.
  pub compile_project-stopped :
      (log : Log)
      → (k : ℕ) × (written (compile_project os same_node env fuel params log).1
          ≡ written log ++ take k (if params.parse_only then [] else project_outputs params))
  unfolding Writes
  compile_project-stopped log = (compile_project-Writes log).1
