-- ===== src/Tree/Node.antt =====
-- ast.go: the nodes of the syntax tree. A `*nodeBlock` field is the list of its nodes, and `alt` of
-- a nodeIf, nil or a node, is an `Alt`. A nodeList is made only where a slice is handed to
-- `inspect`, and is no node of a tree.
use pushup.Base.{ℕ, Bool, List, [], ◌∷◌, Bytes}
use pushup.Lexer.Defs.{Attr}

pub record Span : Type 0 where
  pub start : ℕ
  pub end : ℕ

pub record GoStrExpr : Type 0 where
  pub expr : Bytes
  pub pos : Span

pub data GoCodeContext : Type 0 where
  inline_go_code handler_go_code : GoCodeContext

pub record GoCode : Type 0 where
  pub context : GoCodeContext
  pub code : Bytes
  pub pos : Span

pub record ImportDecl : Type 0 where
  pub pkg_name : Bytes
  pub path : Bytes

pub record Tag : Type 0 where
  pub name : Bytes
  pub attrs : List Attr

mutual
  pub data Node : Type 0 where
    literal : Bytes → Span → Node
    element : Tag → Nodes → Nodes → Span → Bool → Node
    go_str_expr : GoStrExpr → Node
    go_code : GoCode → Node
    if_stmt : GoStrExpr → Nodes → Alt → Node
    for_stmt : GoCode → Nodes → Node
    block : Nodes → Node
    section : Bytes → Span → Nodes → Node
    import_decl : ImportDecl → Span → Node
    layout : Bytes → Span → Node
    partial : Bytes → Span → Nodes → Node

  pub data Nodes : Type 0 where
    nil : Nodes
    cons : Node → Nodes → Nodes

  pub data Alt : Type 0 where
    no_alt : Alt
    alt : Node → Alt

abbrev pub to_list : Nodes → List Node
to_list nil = []
to_list (cons n ns) = n ∷ to_list ns

pub record SyntaxTree : Type 0 where
  pub nodes : List Node
