-- ===== src/Project/PageCode.antt =====
-- codegen.go: `genCodePage`, the body of the code of a page, and what its init function adds to the
-- runtime's table of routes. The header, with the version and the imports, is left out.
use pushup.Base.{
  ℕ, ◌+◌, Bool, false, Option, none, some, List, [], ◌∷◌, ◌++◌, if◌then◌else◌, Bytes, codes, split,
}
use pushup.Tree.Node.{Node, Nodes, GoCode}
use pushup.Page.Defs.{Partial, urlpath, Page}
use pushup.Runtime.Route.{RouteRole, route_page, route_partial}
use pushup.Compile.Defs.{up_file_page}
use pushup.Gen.Defs.{Print, line_directive, line_no, gen_all, generate}
use pushup.Gen.Inline.{gen_node_partial}
use pushup.Project.Files.{
  ProjectFile, relpath, route_for_page, route_for_partial, generated_typename,
  generated_typename_partial,
}

-- A piece of the body: text, or what genNode prints while the writer's variable has that name.
pub data Piece : Type 0 where
  text : Bytes → Piece
  printed : Bytes → List Print → Piece

pub record InitRoute : Type 0 where
  pub typename : Bytes
  pub route : Bytes
  pub role : RouteRole

pub record PageCode : Type 0 where
  pub inits : List InitRoute
  pub body : List Piece

infixl 5 ◌>>=◌
abbrev pub ◌>>=◌ : {A B : Type 0} → Option A → (A → Option B) → Option B
none >>= k = none
some a >>= k = k a

abbrev pub writer_var : Bytes
writer_var = codes "w"

abbrev pub buffer_var : Bytes
buffer_var = codes "__pushup_b"

-- The struct type and the head of its method Respond.
unfoldable pub type_struct : Bytes → List Piece
type_struct typename =
    text (codes "type " ++ (typename ++ (codes " struct {\n"))) ∷ text (codes "}\n") ∷ []

unfoldable pub respond_head : Bytes → List Piece
respond_head typename =
    text (
      codes "func ("
      ++ (codes "up"
          ++ (codes " *"
              ++ (typename
                  ++ (codes ") Respond(w http.ResponseWriter, req *http.Request) error {\n")))))
    ∷ []

unfoldable pub cli_args : Bytes → Bytes → List Piece
cli_args args typename =
    text (
      codes "func ("
      ++ (codes "up" ++ (codes " *" ++ (typename ++ (codes ") buildCliArgs() []string {\n")))))
    ∷ text (codes "  return " ++ (args ++ (codes "\n")))
    ∷ text (codes "}\n\n")
    ∷ []

unfoldable pub handler_lines : Bool → ℕ → List Bytes → List Piece
handler_lines line_directives_enabled n [] = []
handler_lines line_directives_enabled n (line ∷ lines) =
    (if line_directives_enabled then printed writer_var (line_directive n ∷ []) ∷ [] else [])
    ++ text (codes "  " ++ (line ++ codes "\n"))
      ∷ handler_lines line_directives_enabled (n + 1) lines

-- strconv.Quote is a parameter.
module _ (quote : Bytes → Bytes) where
  unfoldable pub make_sections : List (Bytes × Nodes) → List Piece
  make_sections [] = []
  make_sections ((name, body) ∷ ss) =
      text (codes "sections[" ++ (quote name ++ codes "] = make(chan template.HTML)\n"))
      ∷ make_sections ss

  unfoldable pub close_sections : List (Bytes × Nodes) → List Piece
  close_sections [] = []
  close_sections ((name, body) ∷ ss) =
      text (codes "  close(sections[" ++ (quote name ++ codes "])\n")) ∷ close_sections ss

  unfoldable pub respond_layout : Bytes → List (Bytes × Nodes) → List Piece
  unfolding make_sections
  respond_layout layout_name sections =
      (text (codes "// sections\n")
        ∷ text (codes "sections := make(map[string]chan template.HTML)\n")
        ∷ text (codes "sections[\"contents\"] = make(chan template.HTML)\n")
        ∷ make_sections sections)
      ++ (text (codes "\n")
          ∷ text (codes "\t\t\tvar wg sync.WaitGroup\n")
          ∷ text (codes "\t\t\tlayout := getLayout(\"")
          ∷ text layout_name
          ∷ text (codes "\")\n")
          ∷ text
              (codes "\t\t\tctx, cancel := context.WithTimeout(req.Context(), time.Second * 5)\n")
          ∷ text (codes "\t\t\twg.Add(1)\n")
          ∷ text (codes "\t\t\tgo func() {\n")
          ∷ text (codes "\t\t\t\tdefer wg.Done()\n")
          ∷ text (codes "\t\t\t\tdefer cancel()\n")
          ∷ text (
              codes
                "\t\t\t\tif err := layout.Respond(w, req.WithContext(ctx), sections); err != nil {\n")
          ∷ text (codes "\t\t\t\t\tlog.Printf(\"error responding with layout: %v\", err)\n")
          ∷ text (codes "\t\t\t\t\tpanic(err)\n")
          ∷ text (codes "\t\t\t\t}\n")
          ∷ text (codes "\t\t\t}()\n")
          ∷ text (codes "\t\t")
          ∷ [])

  unfoldable pub section_code : Bytes → List Print → List Piece
  section_code name prints =
      text (codes "wg.Add(1)\n")
      ∷ text (codes "go func() {\n")
      ∷ text (codes "  defer wg.Done()\n")
      ∷ text (codes "  defer func() {\n")
      ∷ text (codes "    if r := recover(); r != nil {\n")
      ∷ text (codes "      if panicked != nil {\n")
      ∷ text (codes "\t      cancel()\n")
      ∷ text (codes "\t      panicked = r\n")
      ∷ text (codes "\t    }\n")
      ∷ text (codes "    }\n")
      ∷ text (codes "  }()\n")
      ∷ text (codes "  " ++ (buffer_var ++ (codes " := new(bytes.Buffer)\n")))
      ∷ printed buffer_var prints
      ∷ text (
          codes "  sections["
          ++ (quote name
              ++ (codes "] <- template.HTML(" ++ (buffer_var ++ (codes ".String())\n")))))
      ∷ text (codes "}()\n")
      ∷ []

  unfoldable pub respond_tail : List (Bytes × Nodes) → List Piece
  unfolding close_sections
  respond_tail sections =
      (text (codes "wg.Wait()\n")
        ∷ text (codes "if panicked != nil {\n")
        ∷ text (codes "  close(sections[\"contents\"])\n")
        ∷ [])
      ++ (close_sections sections
          ++ (text (codes "  return fmt.Errorf(\"goroutine panicked: %v\", panicked)\n")
              ∷ text (codes "}\n")
              ∷ text (codes "// End user Go code and HTML\n")
              ∷ text (codes "}\n")
              ∷ text (codes "return nil\n")
              ∷ text (codes "}\n")
              ∷ []))

  unfoldable pub role_name : RouteRole → Bytes
  role_name route_page = codes "routePage"
  role_name route_partial = codes "routePartial"

  unfoldable pub init_lines : List InitRoute → List Piece
  unfolding role_name
  init_lines [] = []
  init_lines (r ∷ rs) =
      text (
        codes "  routes.add("
        ++ (quote r.route
            ++ (codes ", new("
                ++ (r.typename ++ (codes "), " ++ (role_name r.role ++ codes ")\n"))))))
      ∷ init_lines rs

  unfoldable pub init_func : List InitRoute → List Piece
  unfolding init_lines
  init_func rs = text (codes "\nfunc init() {\n") ∷ (init_lines rs ++ text (codes "}\n\n") ∷ [])

unfoldable pub contents_code : List Print → List Piece
contents_code prints =
    text (codes "\n// Begin user Go code and HTML\n")
    ∷ text (codes "{\n")
    ∷ text (codes "var panicked any\n")
    ∷ text (codes "wg.Add(1)\n")
    ∷ text (codes "go func() {\n")
    ∷ text (codes "  defer wg.Done()\n")
    ∷ text (codes "  defer func() {\n")
    ∷ text (codes "    if r := recover(); r != nil {\n")
    ∷ text (codes "      if panicked == nil {\n")
    ∷ text (codes "\t      cancel()\n")
    ∷ text (codes "\t      panicked = r\n")
    ∷ text (codes "\t    }\n")
    ∷ text (codes "    }\n")
    ∷ text (codes "  }()\n")
    ∷ text (codes "  " ++ (buffer_var ++ (codes " := new(bytes.Buffer)\n")))
    ∷ printed buffer_var prints
    ∷ text (
        codes "  sections[\"contents\"] <- template.HTML("
        ++ (buffer_var ++ (codes ".String())\n")))
    ∷ text (codes "}()\n\n")
    ∷ []

unfoldable pub partial_code : List Print → List Piece
partial_code prints =
    text (codes "// Begin user Go code and HTML\n")
    ∷ text (codes "{\n")
    ∷ printed writer_var prints
    ∷ text (codes "// End user Go code and HTML\n")
    ∷ text (codes "}\n")
    ∷ text (codes "return nil\n")
    ∷ text (codes "}\n")
    ∷ []

-- The source of the page, os.Args in Go's syntax, the identity of a partial's node, and package unicode's
-- tests and upper case and the characters of a string (UTF-8) for the names of types.
module _ (quote : Bytes → Bytes) (args : Bytes) (same_node : Partial → Node → Bool)
    (is_letter is_number : ℕ → Bool) (to_upper : ℕ → ℕ) (to_runes : Bytes → List ℕ)
    (of_runes : List ℕ → Bytes) (line_directives_enabled : Bool) (source : Bytes) where
  unfoldable pub handler_at : Bytes → Option ℕ → Option (List Piece)
  unfolding handler_lines
  handler_at code none = none
  handler_at code (some n) = some (handler_lines line_directives_enabled n (split b'\n' code))

  unfoldable pub handler_code : Option GoCode → Option (List Piece)
  unfolding handler_at
  handler_code none = some []
  handler_code (some h) = handler_at h.code (line_no line_directives_enabled source h.pos)

  -- The sections of the page, in the order in which the map gives them.
  unfoldable pub sections_code : List (Bytes × Nodes) → Option (List Piece)
  unfolding section_code gen_all
  sections_code [] = some []
  sections_code ((name, body) ∷ ss) = do
    prints ← gen_all line_directives_enabled source body
    rest ← sections_code ss
    some (section_code quote name prints ++ rest)

  -- `none` is a panic in one of them.
  unfoldable pub main_of :
      Page
      → Bytes
      → Bytes
      → Option (List Piece)
      → Option (List Print)
      → Option (List Piece)
      → Option PageCode
  unfolding type_struct cli_args respond_head respond_layout contents_code respond_tail
  main_of page typename path none contents sections = none
  main_of page typename path (some handler) none sections = none
  main_of page typename path (some handler) (some contents) none = none
  main_of page typename path (some handler) (some contents) (some sections) = some (record {
    inits = record { typename = typename; route = route_for_page path; role = route_page } ∷ [];
    body =
        type_struct typename
        ++ (cli_args args typename
            ++ (respond_head typename
                ++ (handler
                    ++ (respond_layout quote page.layout page.sections
                        ++ (contents_code contents
                            ++ (sections ++ respond_tail quote page.sections))))));
  })

  unfoldable pub main_page : ProjectFile → Page → Option PageCode
  unfolding relpath generated_typename handler_code sections_code generate main_of
  main_page f page = do
    typename ← generated_typename is_letter is_number to_upper to_runes of_runes f up_file_page
    path ← relpath f
    main_of page typename path (handler_code page.handler)
        (generate line_directives_enabled source page.nodes) (sections_code page.sections)

  unfoldable pub partial_of :
      Partial → Bytes → Bytes → Option (List Piece) → Option (List Print × Bool) → Option PageCode
  unfolding route_for_partial urlpath type_struct respond_head partial_code
  partial_of p typename path none inner = none
  partial_of p typename path (some handler) none = none
  partial_of p typename path (some handler) (some (inner, state)) = some (record {
    inits =
        record {
          typename = typename;
          route = route_for_partial path (urlpath p);
          role = route_partial;
        }
        ∷ [];
    body = type_struct typename ++ (respond_head typename ++ (handler ++ partial_code inner));
  })

  unfoldable pub partial_page : ProjectFile → Page → Partial → Option PageCode
  unfolding relpath generated_typename_partial handler_code gen_node_partial partial_of
  partial_page f page p = do
    typename ← generated_typename_partial is_letter is_number to_upper to_runes of_runes p f
    path ← relpath f
    partial_of p typename path (handler_code page.handler)
        (gen_node_partial line_directives_enabled source (same_node p) page.nodes false)

  unfoldable pub both : Option PageCode → Option PageCode → Option PageCode
  both none rest = none
  both (some first) none = none
  both (some first) (some rest) =
      some (record { inits = first.inits ++ rest.inits; body = first.body ++ rest.body })

  unfoldable pub partial_pages : ProjectFile → Page → List Partial → Option PageCode
  unfolding partial_page both
  partial_pages f page [] = some (record { inits = []; body = [] })
  partial_pages f page (p ∷ ps) = both (partial_page f page p) (partial_pages f page ps)

  unfoldable pub with_init : Option PageCode → Option PageCode
  unfolding init_func
  with_init none = none
  with_init (some g) = some (record { inits = g.inits; body = g.body ++ init_func quote g.inits })

  unfoldable pub gen_code_page : ProjectFile → Page → Option PageCode
  unfolding main_page partial_pages both with_init
  gen_code_page f page = with_init (both (main_page f page) (partial_pages f page page.partials))
