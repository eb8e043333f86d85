-- ===== src/Gen/Defs.antt =====
-- codegen.go: `pageCodeGen.genNode`, with what it prints as a list of its prints. The set of imports
-- that `used` adds to is left out: nothing here reads it.
use pushup.Base.{
  ℕ, ◌+◌, Bool, Option, none, some, List, [], ◌∷◌, ◌++◌, leb, if◌then◌else◌, length, take, Bytes,
  codes, count, split,
}
use pushup.Tree.Node.{
  Span, Node, Nodes, Alt, nil, cons, no_alt, alt, literal, element, go_str_expr, go_code, if_stmt,
  for_stmt, block, section, import_decl, layout, partial, GoCode, GoCodeContext, inline_go_code,
  handler_go_code, Tag,
}

-- One call of `bodyPrintf`.
pub data Print : Type 0 where
  write_string print_escaped if_open for_open code_line : Bytes → Print
  else_open brace_close : Print
  line_directive : ℕ → Print

-- The text of a print. strconv.Quote, the printing of a number, the page's path and the name of the
-- writer's variable are parameters.
abbrev pub print_text : (Bytes → Bytes) → (ℕ → Bytes) → Bytes → Bytes → Print → Bytes
print_text quote itoa relpath writer (write_string s) =
    codes "io.WriteString(" ++ (writer ++ (codes ", " ++ (quote s ++ codes ")\n")))
print_text quote itoa relpath writer (print_escaped expr) =
    codes "printEscaped(" ++ (writer ++ (codes ", " ++ (expr ++ codes ")\n")))
print_text quote itoa relpath writer (if_open cond) = codes "if " ++ (cond ++ codes " {\n")
print_text quote itoa relpath writer (for_open clause) = codes "for " ++ (clause ++ codes " {\n")
print_text quote itoa relpath writer (code_line line) = line ++ codes "\n"
print_text quote itoa relpath writer else_open = codes "} else {\n"
print_text quote itoa relpath writer brace_close = codes "}\n"
print_text quote itoa relpath writer (line_directive n) =
    codes "//line " ++ (relpath ++ (codes ":" ++ (itoa n ++ codes "\n")))

-- `tag.end`
abbrev pub end_tag : Tag → Bytes
end_tag t = codes "</" ++ (t.name ++ codes ">")

abbrev pub line_count : Bytes → ℕ
line_count s = count b'\n' s + 1

-- First one, then the other; `none` is a panic.
abbrev pub andthen : Option (List Print) → Option (List Print) → Option (List Print)
andthen none q = none
andthen (some xs) none = none
andthen (some xs) (some ys) = some (xs ++ ys)

module _ (line_directives_enabled : Bool) (source : Bytes) where
  -- `lineNo`; the slice of the source may be out of range.
  unfoldable pub line_no : Span → Option ℕ
  line_no s =
      if leb (s.start + 1) (length source)
      then some (line_count (take (s.start + 1) source))
      else none

  unfoldable pub line_directive_at : Option ℕ → Option (List Print)
  line_directive_at none = none
  line_directive_at (some n) = some (line_directive n ∷ [])

  unfoldable pub node_line_no : Span → Option (List Print)
  unfolding line_directive_at
  node_line_no s = if line_directives_enabled then line_directive_at (line_no s) else some []

  -- The loop over the lines of a piece of code.
  unfoldable pub code_lines : ℕ → List Bytes → List Print
  code_lines n [] = []
  code_lines n (line ∷ lines) =
      (if line_directives_enabled then line_directive n ∷ [] else [])
      ++ code_line line ∷ code_lines (n + 1) lines

  unfoldable pub code_at : List Bytes → Option ℕ → Option (List Print)
  code_at lines none = none
  code_at lines (some n) = some (code_lines n lines)

  unfoldable pub gen_code : GoCodeContext → GoCode → Option (List Print)
  unfolding code_at
  gen_code handler_go_code e = none
  gen_code inline_go_code e = code_at (split b'\n' e.code) (line_no e.pos)

  unfoldable mutual
    pub gen_node : Node → Option (List Print)
    gen_node (literal s pos) = andthen (node_line_no pos) (some (write_string s ∷ []))
    gen_node (element t start_tag_nodes children pos closing) = andthen (node_line_no pos) (
        andthen (gen_all start_tag_nodes)
          (andthen (gen_all children) (some (write_string (end_tag t) ∷ []))))
    gen_node (go_str_expr e) = andthen (node_line_no e.pos) (some (print_escaped e.expr ∷ []))
    gen_node (go_code e) = gen_code e.context e
    gen_node (if_stmt cond then_block else_alt) =
        andthen (some (if_open cond.expr ∷ [])) (andthen (gen_all then_block) (gen_alt else_alt))
    gen_node (for_stmt clause body) =
        andthen (some (for_open clause.code ∷ []))
          (andthen (gen_all body) (some (brace_close ∷ [])))
    gen_node (block body) = gen_all body
    gen_node (section name pos body) = gen_all body
    gen_node (partial name pos body) = gen_all body
    gen_node (layout name pos) = some []
    gen_node (import_decl decl pos) = some []

    pub gen_all : Nodes → Option (List Print)
    gen_all nil = some []
    gen_all (cons e es) = andthen (gen_node e) (gen_all es)

    pub gen_alt : Alt → Option (List Print)
    gen_alt no_alt = some (brace_close ∷ [])
    gen_alt (alt e) =
        andthen (some (else_open ∷ [])) (andthen (gen_node e) (some (brace_close ∷ [])))

  -- `generate`, on the page's nodes.
  unfoldable pub generate : List Node → Option (List Print)
  generate [] = some []
  generate (e ∷ es) = andthen (gen_node e) (generate es)
