-- ===== src/Gen/Scopes.antt =====
-- codegen.go: what `genNodePartial` prints inside the partial that it is for.
use pushup.Base.{
  ◌≡◌, refl, ap, ◌∙◌, Bool, true, Option, none, some, List, [], ◌∷◌, append_assoc, Bytes, arith,
}
use pushup.Tree.Node.{
  Node, Nodes, Alt, nil, cons, no_alt, alt, literal, element, go_str_expr, go_code, if_stmt,
  for_stmt, block, section, import_decl, layout, partial,
}
use pushup.Gen.Defs.{
  Print, write_string, if_open, for_open, else_open, brace_close, end_tag, andthen, node_line_no,
  gen_node, gen_all, gen_alt,
}
use pushup.Gen.Inline.{
  Scoped, prepend, proceed, one_behind, prints_of, in_scope, gen_inline, gen_inline_all,
  gen_inline_alt,
}

-- No partial, section, layout or import is among the nodes.
unfoldable mutual
  pub IsPlain : Node → Type 0
  IsPlain (element t start_tag_nodes children pos closing) =
      AllPlain start_tag_nodes × AllPlain children
  IsPlain (if_stmt cond then_block else_alt) = AllPlain then_block × AltPlain else_alt
  IsPlain (for_stmt clause body) = AllPlain body
  IsPlain (block body) = AllPlain body
  IsPlain (section name pos body) = ⊥
  IsPlain (partial name pos body) = ⊥
  IsPlain (layout name pos) = ⊥
  IsPlain (import_decl decl pos) = ⊥
  IsPlain e = Unit

  pub AllPlain : Nodes → Type 0
  AllPlain nil = Unit
  AllPlain (cons e es) = IsPlain e × AllPlain es

  pub AltPlain : Alt → Type 0
  AltPlain no_alt = Unit
  AltPlain (alt e) = IsPlain e

one_behind-prints_of :
    (o k : Option (List Print)) (m n : Scoped)
    → m true ≡ prints_of o true
    → n true ≡ prints_of k true
    → one_behind m n true ≡ prints_of (andthen o k) true
unfolding one_behind proceed prepend prints_of
one_behind-prints_of none k m n h i = ground (arith, h)
one_behind-prints_of (some xs) none m n h i = ground (arith, h, i)
one_behind-prints_of (some xs) (some ys) m n h i = ground (arith, h, i)

andthen_assoc : (o k l : Option (List Print)) → andthen (andthen o k) l ≡ andthen o (andthen k l)
andthen_assoc none k l = refl
andthen_assoc (some xs) none l = refl
andthen_assoc (some xs) (some ys) none = refl
andthen_assoc (some xs) (some ys) (some zs) = ap some (append_assoc xs ys zs)

module _ (lines_on : Bool) (source : Bytes) (is_target : Node → Bool) where
  abbrev pub all : Nodes → Scoped
  all = gen_inline_all lines_on source is_target

  abbrev pub code : Nodes → Option (List Print)
  code = gen_all lines_on source

  mutual
    unfolding gen_inline gen_node IsPlain in_scope

    gen_inline-gen_node :
        (e : Node)
        → IsPlain e
        → gen_inline lines_on source is_target e true ≡ prints_of (gen_node lines_on source e) true
    gen_inline-gen_node (literal s pos) h = refl
    gen_inline-gen_node (element t start_tag_nodes children pos closing) (h, k) =
        let dir = node_line_no lines_on source pos in
        let close = some (write_string (end_tag t) ∷ []) in
        let inner = one_behind (prints_of dir) (all start_tag_nodes) in
        let behind = one_behind (all children) (in_scope (prints_of close)) in
        one_behind-prints_of (andthen dir (code start_tag_nodes)) (andthen (code children) close)
          (in_scope inner) behind
          (one_behind-prints_of dir (code start_tag_nodes) (prints_of dir) (all start_tag_nodes)
            refl (gen_inline_all-gen_all start_tag_nodes h))
          (one_behind-prints_of (code children) close (all children) (in_scope (prints_of close))
            (gen_inline_all-gen_all children k) refl)
        ∙ ap (λ o. prints_of o true)
            (andthen_assoc dir (code start_tag_nodes) (andthen (code children) close))
    gen_inline-gen_node (go_str_expr e) h = refl
    gen_inline-gen_node (go_code e) h = refl
    gen_inline-gen_node (if_stmt cond then_block else_alt) (h, k) =
        let open_if = some (if_open cond.expr ∷ []) in
        let alt_code = gen_alt lines_on source else_alt in
        let alt_inline = gen_inline_alt lines_on source is_target else_alt in
        one_behind-prints_of open_if (andthen (code then_block) alt_code) (prints_of open_if)
          (one_behind (all then_block) alt_inline) refl
          (one_behind-prints_of (code then_block) alt_code (all then_block) alt_inline
            (gen_inline_all-gen_all then_block h) (gen_inline_alt-gen_alt else_alt k))
    gen_inline-gen_node (for_stmt clause body) h =
        let open_for = some (for_open clause.code ∷ []) in
        let close = some (brace_close ∷ []) in
        one_behind-prints_of open_for (andthen (code body) close) (prints_of open_for)
          (one_behind (all body) (prints_of close)) refl
          (one_behind-prints_of (code body) close (all body) (prints_of close)
            (gen_inline_all-gen_all body h) refl)
    gen_inline-gen_node (block body) h = gen_inline_all-gen_all body h
    gen_inline-gen_node (section name pos body) h = absurd h
    gen_inline-gen_node (partial name pos body) h = absurd h
    gen_inline-gen_node (layout name pos) h = absurd h
    gen_inline-gen_node (import_decl decl pos) h = absurd h

    pub gen_inline_all-gen_all :
        (es : Nodes)
        → AllPlain es
        → gen_inline_all lines_on source is_target es true
          ≡ prints_of (gen_all lines_on source es) true
    gen_inline_all-gen_all nil h = refl
    gen_inline_all-gen_all (cons e es) (h, k) =
        one_behind-prints_of (gen_node lines_on source e) (code es)
          (gen_inline lines_on source is_target e) (all es) (gen_inline-gen_node e h)
          (gen_inline_all-gen_all es k)

    gen_inline_alt-gen_alt :
        (a : Alt)
        → AltPlain a
        → gen_inline_alt lines_on source is_target a true
          ≡ prints_of (gen_alt lines_on source a) true
    gen_inline_alt-gen_alt no_alt h = refl
    gen_inline_alt-gen_alt (alt e) h =
        let open_else = some (else_open ∷ []) in
        let close = some (brace_close ∷ []) in
        let e_code = gen_node lines_on source e in
        let e_inline = gen_inline lines_on source is_target e in
        one_behind-prints_of open_else (andthen e_code close) (prints_of open_else)
          (one_behind e_inline (prints_of close)) refl
          (one_behind-prints_of e_code close e_inline (prints_of close) (gen_inline-gen_node e h)
            refl)
