-- ===== src/Gen/Balanced.antt =====
-- codegen.go: the code that `genNode` prints for the nodes of a page.
use pushup.Base.{
  ℕ, ◌+◌, ◌≤◌, ◌≡◌, refl, ap, Bool, true, false, some, List, [], ◌∷◌, ◌++◌, if◌then◌else◌, length,
  take, Bytes, split, All, arith,
}
use pushup.Tree.Node.{
  Span, Node, Nodes, Alt, nil, cons, no_alt, alt, literal, element, go_str_expr, go_code, if_stmt,
  for_stmt, block, section, import_decl, layout, partial, GoCode, GoCodeContext, inline_go_code,
  handler_go_code,
}
use pushup.Gen.Defs.{
  Print, write_string, print_escaped, if_open, for_open, code_line, else_open, brace_close,
  line_directive, end_tag, line_count, andthen, line_no, line_directive_at, node_line_no,
  code_lines, code_at, gen_code, gen_node, gen_all, gen_alt, generate,
}
use pushup.Gen.Braces.{
  open_braces, IsPrinted, andthen-IsPrinted, deeper, if_open-IsPrinted, for_open-IsPrinted,
  else_open-IsPrinted, brace_close-IsPrinted, write_string-IsPrinted, print_escaped-IsPrinted,
  nothing-IsPrinted,
}

module _ (lines_on : Bool) (source : Bytes) where
  -- The place lies in the source.
  abbrev pub IsWithin : Span → Type 0
  IsWithin s = s.start + 1 ≤ length source

  -- Every place that `genNode` asks for lies in the source, and no handler is among the nodes.
  unfoldable mutual
    pub IsPlaced : Node → Type 0
    IsPlaced (literal s pos) = IsWithin pos
    IsPlaced (element t start_tag_nodes children pos closing) =
        IsWithin pos × AllPlaced start_tag_nodes × AllPlaced children
    IsPlaced (go_str_expr e) = IsWithin e.pos
    IsPlaced (go_code e) = (e.context ≡ inline_go_code) × IsWithin e.pos
    IsPlaced (if_stmt cond then_block else_alt) = AllPlaced then_block × AltPlaced else_alt
    IsPlaced (for_stmt clause body) = AllPlaced body
    IsPlaced (block body) = AllPlaced body
    IsPlaced (section name pos body) = AllPlaced body
    IsPlaced (partial name pos body) = AllPlaced body
    IsPlaced e = Unit

    pub AllPlaced : Nodes → Type 0
    AllPlaced nil = Unit
    AllPlaced (cons e es) = IsPlaced e × AllPlaced es

    pub AltPlaced : Alt → Type 0
    AltPlaced no_alt = Unit
    AltPlaced (alt e) = IsPlaced e

  line_no-IsWithin : (s : Span) → IsWithin s → (n : ℕ) × (line_no lines_on source s ≡ some n)
  unfolding line_no
  line_no-IsWithin s h = (line_count (take (s.start + 1) source), ground (arith, h))

  node_line_no-IsPrinted : (s : Span) → IsWithin s → IsPrinted 0 0 (node_line_no lines_on source s)
  unfolding node_line_no open_braces line_directive_at
  node_line_no-IsPrinted s h = by_switch lines_on
    where
      by_switch :
          (t : Bool)
          → IsPrinted 0 0
              (if t then line_directive_at lines_on source (line_no lines_on source s) else some [])
      by_switch true =
          let (n, e) = line_no-IsWithin s h in
          (line_directive n ∷ [], ap (line_directive_at lines_on source) e, λ d. refl)
      by_switch false = nothing-IsPrinted

  code_lines-IsPrinted :
      (n : ℕ) (lines : List Bytes) (d : ℕ)
      → open_braces (code_lines lines_on source n lines) d ≡ some d
  unfolding code_lines open_braces
  code_lines-IsPrinted n [] d = refl
  code_lines-IsPrinted n (line ∷ lines) d =
      by_switch lines_on (code_lines-IsPrinted (n + 1) lines d)
    where
      by_switch :
          (t : Bool)
          → open_braces (code_lines lines_on source (n + 1) lines) d ≡ some d
          → open_braces
              ((if t then line_directive n ∷ [] else [])
                ++ code_line line ∷ code_lines lines_on source (n + 1) lines)
              d
            ≡ some d
      by_switch true rec = rec
      by_switch false rec = rec

  gen_code-IsPrinted :
      (c : GoCodeContext) (e : GoCode)
      → c ≡ inline_go_code
      → IsWithin e.pos
      → IsPrinted 0 0 (gen_code lines_on source c e)
  unfolding gen_code code_at
  gen_code-IsPrinted handler_go_code e q h = ground (arith, q)
  gen_code-IsPrinted inline_go_code e q h =
      let (n, k) = line_no-IsWithin e.pos h in
      (
        code_lines lines_on source n (split b'\n' e.code),
        ap (code_at lines_on source (split b'\n' e.code)) k,
        λ d. code_lines-IsPrinted n (split b'\n' e.code) (d + 0),
      )

  mutual
    unfolding gen_node IsPlaced

    gen_node-IsPrinted : (e : Node) → IsPlaced e → IsPrinted 0 0 (gen_node lines_on source e)
    gen_node-IsPrinted (literal s pos) h =
        andthen-IsPrinted 0 0 0 (node_line_no lines_on source pos) (some (write_string s ∷ []))
          (node_line_no-IsPrinted pos h) (write_string-IsPrinted s)
    gen_node-IsPrinted (element t ss cs pos closing) (h, hs, hc) =
        let last = some (write_string (end_tag t) ∷ []) in
        let inner = andthen (gen_all lines_on source cs) last in
        andthen-IsPrinted 0 0 0 (node_line_no lines_on source pos)
          (andthen (gen_all lines_on source ss) inner) (node_line_no-IsPrinted pos h)
          (andthen-IsPrinted 0 0 0 (gen_all lines_on source ss) inner (gen_all-IsPrinted ss hs) (
            andthen-IsPrinted 0 0 0 (gen_all lines_on source cs) last (gen_all-IsPrinted cs hc)
              (write_string-IsPrinted (end_tag t))))
    gen_node-IsPrinted (go_str_expr e) h =
        andthen-IsPrinted 0 0 0 (node_line_no lines_on source e.pos)
          (some (print_escaped e.expr ∷ [])) (node_line_no-IsPrinted e.pos h)
          (print_escaped-IsPrinted e.expr)
    gen_node-IsPrinted (go_code e) (q, h) = gen_code-IsPrinted e.context e q h
    gen_node-IsPrinted (if_stmt cond body other) (hb, ho) =
        andthen-IsPrinted 0 1 0 (some (if_open cond.expr ∷ []))
          (andthen (gen_all lines_on source body) (gen_alt lines_on source other))
          (if_open-IsPrinted cond.expr)
          (andthen-IsPrinted 1 1 0 (gen_all lines_on source body) (gen_alt lines_on source other)
            (deeper (gen_all lines_on source body) (gen_all-IsPrinted body hb))
            (gen_alt-IsPrinted other ho))
    gen_node-IsPrinted (for_stmt clause body) h =
        andthen-IsPrinted 0 1 0 (some (for_open clause.code ∷ []))
          (andthen (gen_all lines_on source body) (some (brace_close ∷ [])))
          (for_open-IsPrinted clause.code)
          (andthen-IsPrinted 1 1 0 (gen_all lines_on source body) (some (brace_close ∷ []))
            (deeper (gen_all lines_on source body) (gen_all-IsPrinted body h))
            brace_close-IsPrinted)
    gen_node-IsPrinted (block body) h = gen_all-IsPrinted body h
    gen_node-IsPrinted (section name pos body) h = gen_all-IsPrinted body h
    gen_node-IsPrinted (partial name pos body) h = gen_all-IsPrinted body h
    gen_node-IsPrinted (layout name pos) h = nothing-IsPrinted
    gen_node-IsPrinted (import_decl decl pos) h = nothing-IsPrinted

    gen_all-IsPrinted : (es : Nodes) → AllPlaced es → IsPrinted 0 0 (gen_all lines_on source es)
    gen_all-IsPrinted nil h = nothing-IsPrinted
    gen_all-IsPrinted (cons e es) (h, hs) =
        andthen-IsPrinted 0 0 0 (gen_node lines_on source e) (gen_all lines_on source es)
          (gen_node-IsPrinted e h) (gen_all-IsPrinted es hs)

    gen_alt-IsPrinted :
        (other : Alt) → AltPlaced other → IsPrinted 1 0 (gen_alt lines_on source other)
    gen_alt-IsPrinted no_alt h = brace_close-IsPrinted
    gen_alt-IsPrinted (alt e) h =
        andthen-IsPrinted 1 1 0 (some (else_open ∷ []))
          (andthen (gen_node lines_on source e) (some (brace_close ∷ []))) else_open-IsPrinted
          (andthen-IsPrinted 1 1 0 (gen_node lines_on source e) (some (brace_close ∷ []))
            (deeper (gen_node lines_on source e) (gen_node-IsPrinted e h)) brace_close-IsPrinted)

  generate-IsPrinted :
      (es : List Node) → All IsPlaced es → IsPrinted 0 0 (generate lines_on source es)
  unfolding generate
  generate-IsPrinted [] h = nothing-IsPrinted
  generate-IsPrinted (e ∷ es) (h, hs) =
      andthen-IsPrinted 0 0 0 (gen_node lines_on source e) (generate lines_on source es)
        (gen_node-IsPrinted e h) (generate-IsPrinted es hs)

  -- If every place that genNode asks for lies in the source, and no handler stands among the nodes, then
  -- `generate` does not panic, and among the lines that it adds itself for `if`, `else` and `for`, each `}`
  -- and `} else {` closes one that is open, and none is left open. The lines of the user's own Go code are
  -- not read for braces.
  pub generate-IsBalanced :
      (es : List Node)
      → All IsPlaced es
      → (ps : List Print) × (generate lines_on source es ≡ some ps) × (open_braces ps 0 ≡ some 0)
  generate-IsBalanced es h = let (ps, e, k) = generate-IsPrinted es h in (ps, e, k 0)
