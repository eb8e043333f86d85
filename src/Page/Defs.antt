-- ===== src/Page/Defs.antt =====
-- codegen.go: `newPageFromTree`, which sorts the top-level nodes of a page's tree.
use pushup.Base.{
  ℕ, zero, suc, ◌+◌, Bool, true, false, Option, none, some, List, [], ◌∷◌, ◌++◌, if◌then◌else◌,
  length, take, set, get_elem?, Bytes, codes, equal, join,
}
use pushup.Tree.Node.{
  Node, Nodes, Alt, nil, cons, no_alt, alt, element, go_code, if_stmt, for_stmt, block, section,
  import_decl, layout, partial, GoCode, GoCodeContext, inline_go_code, handler_go_code, ImportDecl,
  SyntaxTree,
}

-- An inline partial; its parent pointer is nil in the first constructor. Nothing reads the list
-- `children`, which is left out.
pub data Partial : Type 0 where
  top_partial : Node → Bytes → Partial
  sub_partial : Node → Bytes → Partial → Partial

-- The loop of `urlpath`, which puts each ancestor's name in front.
unfoldable pub segments : Partial → List Bytes → List Bytes
segments (top_partial n name) acc = name ∷ acc
segments (sub_partial n name parent) acc = segments parent (name ∷ acc)

unfoldable pub urlpath : Partial → Bytes
unfolding segments
urlpath p = join b'/' (segments p [])

pub data PageError : Type 0 where
  layout_already_set : Bytes → PageError
  only_one_handler : PageError

-- The variables of the first pass: the page's fields, and the tree's slice, which it writes to while
-- it reads it. A key of `sections` has its newest entry first.
pub record Pass : Type 0 where
  pub layout : Bytes
  pub imports : List ImportDecl
  pub handler : Option GoCode
  pub sections : List (Bytes × Nodes)
  pub layout_set : Bool
  pub nodes : List Node
  pub n : ℕ
  pub error : Option PageError

-- `tree.nodes[n] = e; n++`
abbrev pub keep : Node → Pass → Pass
keep e s = record s { nodes = set s.nodes s.n e; n = s.n + 1 }

unfoldable pub set_layout : Bytes → Bool → Pass → Pass
set_layout name true s = record s { error = some (layout_already_set s.layout) }
set_layout name false s = record s {
  layout = (if equal name (codes "!") then [] else name);
  layout_set = true;
}

unfoldable pub set_handler : GoCode → Option GoCode → Pass → Pass
set_handler e (some h) s = record s { error = some only_one_handler }
set_handler e none s = record s { handler = some e }

unfoldable pub visit_code : GoCodeContext → GoCode → Pass → Pass
unfolding set_handler
visit_code handler_go_code e s = set_handler e s.handler s
visit_code inline_go_code e s = keep (go_code e) s

-- The function `f` of the first pass. An error is kept for the end, and the next one replaces it.
unfoldable pub visit : Node → Pass → Pass
unfolding set_layout visit_code
visit (import_decl decl pos) s = record s { imports = s.imports ++ decl ∷ [] }
visit (layout name pos) s = set_layout name s.layout_set s
visit (go_code e) s = visit_code e.context e s
visit (section name pos body) s = record s { sections = (name, body) ∷ s.sections }
visit e s = keep e s

-- `for _, x := range e`, where `e` is the slice that `visit` writes to: by the rounds that are left
-- and the index.
unfoldable pub visit_at : Option Node → Pass → Pass
visit_at (some x) s = visit x s
visit_at none s = s

unfoldable pub first_pass : ℕ → ℕ → Pass → Pass
unfolding visit_at
first_pass zero i s = s
first_pass (suc rounds) i s = first_pass rounds (i + 1) (visit_at (get_elem? s.nodes i) s)

unfoldable pub new_pass : List Node → Pass
new_pass nodes = record {
  layout = codes "default";
  imports = [];
  handler = none;
  sections = [];
  layout_set = false;
  nodes = nodes;
  n = 0;
  error = none;
}

-- The second pass: `f` at a node, with currentPartial and page.partials.
abbrev pub child_of : Option Partial → Node → Bytes → Partial
child_of none e name = top_partial e name
child_of (some parent) e name = sub_partial e name parent

unfoldable mutual
  pub collect : Option Partial → Node → List Partial → List Partial
  collect curr (element t start_tag_nodes children pos closing) ps =
      collect_all curr children (collect_all curr start_tag_nodes ps)
  collect curr (if_stmt cond then_block else_alt) ps =
      collect_alt curr else_alt (collect_all curr then_block ps)
  collect curr (for_stmt clause body) ps = collect_all curr body ps
  collect curr (block body) ps = collect_all curr body ps
  collect curr (section name pos body) ps = collect_all curr body ps
  collect curr (partial name pos body) ps =
      let p = child_of curr (partial name pos body) name in collect_all (some p) body ps ++ p ∷ []
  collect curr e ps = ps

  pub collect_all : Option Partial → Nodes → List Partial → List Partial
  collect_all curr nil ps = ps
  collect_all curr (cons e es) ps = collect_all curr es (collect curr e ps)

  pub collect_alt : Option Partial → Alt → List Partial → List Partial
  collect_alt curr no_alt ps = ps
  collect_alt curr (alt e) ps = collect curr e ps

unfoldable pub collect_list : List Node → List Partial → List Partial
collect_list [] ps = ps
collect_list (e ∷ es) ps = collect_list es (collect none e ps)

pub record Page : Type 0 where
  pub layout : Bytes
  pub imports : List ImportDecl
  pub handler : Option GoCode
  pub nodes : List Node
  pub sections : List (Bytes × Nodes)
  pub partials : List Partial

pub data PageResult : Type 0 where
  failed : PageError → PageResult
  made : Page → PageResult

unfoldable pub finish : Pass → Option PageError → PageResult
unfolding collect_list
finish s (some e) = failed e
finish s none =
    let kept = take s.n s.nodes in
    made (record {
      layout = s.layout;
      imports = s.imports;
      handler = s.handler;
      nodes = kept;
      sections = s.sections;
      partials = collect_list kept [];
    })

unfoldable pub new_page_from_tree : SyntaxTree → PageResult
unfolding finish
new_page_from_tree tree =
    let s = first_pass (length tree.nodes) 0 (new_pass tree.nodes) in finish s s.error
