-- ===== src/Compile/Defs.antt =====
-- compiler.go: `compile`, up to what the generators print for nodes; the text around it is in
-- Project/PageCode.
use pushup.Base.{ℕ, Bool, true, false, Option, none, some, List, [], ◌∷◌, Bytes}
use pushup.Tree.Node.{Node, Nodes, GoCode, SyntaxTree}
use pushup.Tree.Coalesce.{optimize}
use pushup.Parser.State.{SyntaxError}
use pushup.Parser.Env.{Env}
use pushup.Parser.Document.{ParseResult, parsed, parse}
use pushup.Parser.Document
use pushup.Page.Defs.{PageError, Partial, Page, PageResult, failed, made, new_page_from_tree}
use pushup.Gen.Defs.{Print, line_no, gen_all, generate}
use pushup.Gen.Inline.{gen_node_partial}
use pushup.Gen.Layout.{Layout, new_layout_from_tree, generate_layout}

pub data UpFileType : Type 0 where
  up_file_page up_file_layout : UpFileType

-- How `compile` ends: with the code of a layout or a page, with an error, or with a panic.
pub data Compiled : Type 0 where
  layout_code : Layout → List Print → Compiled
  -- the prints for the page's nodes, for its sections, and for its partials
  page_code : Page → List Print → List (Bytes × List Print) → List (List Print) → Compiled
  parsing_source : SyntaxError → Compiled
  getting_page : PageError → Compiled
  panicked no_result : Compiled

abbrev pub optimized : Bool → SyntaxTree → Option SyntaxTree
optimized true tree = optimize tree
optimized false tree = some tree

unfoldable pub layout_of : Layout → Option (List Print) → Compiled
layout_of l (some prints) = layout_code l prints
layout_of l none = panicked

infixl 5 ◌>>=◌
abbrev ◌>>=◌ : {A B : Type 0} → Option A → (A → Option B) → Option B
none >>= k = none
some a >>= k = k a

-- The line number of the handler in `genCodePage` and `genCodePartial`.
unfoldable pub handler_line : Bytes → Option GoCode → Option (Option ℕ)
handler_line src none = some none
handler_line src (some h) = do n ← line_no true src h.pos; some (some n)

unfoldable pub section_prints : Bytes → List (Bytes × Nodes) → Option (List (Bytes × List Print))
unfolding gen_all
section_prints src [] = some []
section_prints src ((name, body) ∷ ss) = do
  prints ← gen_all true src body
  rest ← section_prints src ss
  some ((name, prints) ∷ rest)

-- The identity of a partial's node is a parameter.
unfoldable pub partial_prints :
    (Partial → Node → Bool) → Bytes → List Node → List Partial → Option (List (List Print))
unfolding gen_node_partial
partial_prints same_node src nodes [] = some []
partial_prints same_node src nodes (p ∷ ps) = do
  inner ← gen_node_partial true src (same_node p) nodes false
  rest ← partial_prints same_node src nodes ps
  some (inner.0 ∷ rest)

-- A panic of any of them is one of genCodePage.
unfoldable pub page_of :
    Page
    → Option (Option ℕ)
    → Option (List Print)
    → Option (List (Bytes × List Print))
    → Option (List (List Print))
    → Compiled
page_of p (some line) (some prints) (some sections) (some partials) =
    page_code p prints sections partials
page_of p line prints sections partials = panicked

-- The generators are made with line directives enabled.
unfoldable pub compile_page : (Partial → Node → Bool) → Bytes → PageResult → Compiled
unfolding page_of handler_line section_prints partial_prints
compile_page same_node src (failed e) = getting_page e
compile_page same_node src (made p) =
    page_of p (handler_line src p.handler) (generate true src p.nodes)
      (section_prints src p.sections) (partial_prints same_node src p.nodes p.partials)

unfoldable pub compile_tree :
    (Partial → Node → Bool) → UpFileType → Bytes → Option SyntaxTree → Compiled
unfolding layout_of compile_page
compile_tree same_node ftype src none = panicked
compile_tree same_node up_file_layout src (some tree) =
    let l = new_layout_from_tree tree in layout_of l (generate_layout true src l.nodes)
compile_tree same_node up_file_page src (some tree) =
    compile_page same_node src (new_page_from_tree tree)

unfoldable pub compile_parsed :
    (Partial → Node → Bool) → UpFileType → Bool → Bytes → ParseResult → Compiled
unfolding compile_tree
compile_parsed same_node ftype apply_optimizations src (parsed tree) =
    compile_tree same_node ftype src (optimized apply_optimizations tree)
compile_parsed same_node ftype apply_optimizations src (Document.failed e) = parsing_source e
compile_parsed same_node ftype apply_optimizations src Document.panicked = panicked
compile_parsed same_node ftype apply_optimizations src Document.no_result = no_result

unfoldable pub compile : (Partial → Node → Bool) → Env → ℕ → UpFileType → Bool → Bytes → Compiled
unfolding compile_parsed
compile same_node env fuel ftype apply_optimizations src =
    compile_parsed same_node ftype apply_optimizations src (parse env fuel src)
