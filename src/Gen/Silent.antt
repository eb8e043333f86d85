-- ===== src/Gen/Silent.antt =====
-- codegen.go: what `genNodePartial` prints outside the partial that it is for, and in all.
use pushup.Base.{
  ◌≡◌, refl, ap, ◌∙◌, Bool, true, false, Option, none, some, List, [], ◌∷◌, ◌++◌, append-nil, All,
  Bytes,
}
use pushup.Tree.Node.{
  Span, Node, Nodes, nil, cons, literal, element, go_str_expr, go_code, if_stmt, for_stmt, block,
  section, import_decl, layout, partial,
}
use pushup.Gen.Defs.{Print, write_string, end_tag, node_line_no, gen_node}
use pushup.Gen.Inline.{
  Scoped, prepend, proceed, one_behind, prints_of, in_scope, set_scope, enter, gen_inline,
  gen_node_partial,
}
use pushup.Gen.Scopes.{AllPlain, all, code, gen_inline_all-gen_all}

-- Literals, expressions and loops, and elements and blocks of such nodes.
unfoldable mutual
  pub IsSilent : Node → Type 0
  IsSilent (literal s pos) = Unit
  IsSilent (go_str_expr e) = Unit
  IsSilent (for_stmt clause body) = Unit
  IsSilent (element t start_tag_nodes children pos closing) = AllSilent children
  IsSilent (block body) = AllSilent body
  IsSilent e = ⊥

  pub AllSilent : Nodes → Type 0
  AllSilent nil = Unit
  AllSilent (cons e es) = IsSilent e × AllSilent es

module _ (lines_on : Bool) (source : Bytes) (is_target : Node → Bool) where
  behind_silent : (m n : Scoped) → m false ≡ some ([], false) → one_behind m n false ≡ n false
  unfolding one_behind proceed prepend
  behind_silent m n h = rw h (by_result (n false))
    where
      by_result : (o : Option (List Print × Bool)) → prepend [] o ≡ o
      by_result none = refl
      by_result (some (xs, s)) = refl

  silent_behind :
      (m n : Scoped)
      → m false ≡ some ([], false)
      → n false ≡ some ([], false)
      → one_behind m n false ≡ some ([], false)
  unfolding one_behind proceed prepend
  silent_behind m n h k = rw (h, k) refl

  mutual
    unfolding gen_inline IsSilent in_scope prints_of

    gen_inline-IsSilent :
        (e : Node) → IsSilent e → gen_inline lines_on source is_target e false ≡ some ([], false)
    gen_inline-IsSilent (literal s pos) h = refl
    gen_inline-IsSilent (element t start_tag_nodes children pos closing) h =
        let close = in_scope (prints_of (some (write_string (end_tag t) ∷ []))) in
        silent_behind
          (in_scope (
            one_behind (prints_of (node_line_no lines_on source pos))
              (all lines_on source is_target start_tag_nodes)))
          (one_behind (all lines_on source is_target children) close) refl
          (silent_behind (all lines_on source is_target children) close
            (gen_inline_all-AllSilent children h) refl)
    gen_inline-IsSilent (go_str_expr e) h = refl
    gen_inline-IsSilent (for_stmt clause body) h = refl
    gen_inline-IsSilent (block body) h = gen_inline_all-AllSilent body h
    gen_inline-IsSilent (go_code e) h = absurd h
    gen_inline-IsSilent (if_stmt cond then_block else_alt) h = absurd h
    gen_inline-IsSilent (section name pos body) h = absurd h
    gen_inline-IsSilent (partial name pos body) h = absurd h
    gen_inline-IsSilent (layout name pos) h = absurd h
    gen_inline-IsSilent (import_decl decl pos) h = absurd h

    gen_inline_all-AllSilent :
        (es : Nodes) → AllSilent es → all lines_on source is_target es false ≡ some ([], false)
    gen_inline_all-AllSilent nil h = refl
    gen_inline_all-AllSilent (cons e es) (h, k) =
        silent_behind (gen_inline lines_on source is_target e) (all lines_on source is_target es)
          (gen_inline-IsSilent e h) (gen_inline_all-AllSilent es k)

  gen_node_partial-IsSilent :
      (es : List Node)
      → All IsSilent es
      → gen_node_partial lines_on source is_target es false ≡ some ([], false)
  unfolding gen_node_partial prints_of
  gen_node_partial-IsSilent [] h = refl
  gen_node_partial-IsSilent (e ∷ es) (h, k) =
      silent_behind (gen_inline lines_on source is_target e)
        (gen_node_partial lines_on source is_target es) (gen_inline-IsSilent e h)
        (gen_node_partial-IsSilent es k)

  partial-prints_of :
      (name : Bytes) (pos : Span) (body : Nodes) (n : Scoped)
      → is_target (partial name pos body) ≡ true
      → AllPlain body
      → n false ≡ some ([], false)
      → one_behind (gen_inline lines_on source is_target (partial name pos body)) n false
        ≡ prints_of (code lines_on source is_target body) false
  unfolding gen_inline one_behind proceed prepend prints_of enter set_scope
  partial-prints_of name pos body n t h k =
      by_code (code lines_on source is_target body)
        (gen_inline_all-gen_all lines_on source is_target body h)
    where
      by_code :
          (o : Option (List Print))
          → all lines_on source is_target body true ≡ prints_of o true
          → one_behind
              (one_behind
                (enter (is_target (partial name pos body)))
                (one_behind (all lines_on source is_target body) (set_scope false)))
              n
              false
            ≡ prints_of o false
      by_code none q = rw (t, q) refl
      by_code (some xs) q =
          rw (t, q, k) (ap (λ l. some (l, false)) (append-nil (xs ++ []) ∙ append-nil xs))

  -- Where the nodes of the page are one partial, with no other partial, section, layout or import in its body,
  -- between nodes that are, or hold, literals, expressions and loops alone: genNodePartial for that partial prints
  -- what genNode prints for the partial in the page, or panics where it does, and prints nothing else.
  pub gen_node_partial-gen_node :
      (before after : List Node) (name : Bytes) (pos : Span) (body : Nodes)
      → All IsSilent before
      → All IsSilent after
      → is_target (partial name pos body) ≡ true
      → AllPlain body
      → gen_node_partial lines_on source is_target (before ++ partial name pos body ∷ after) false
        ≡ prints_of (gen_node lines_on source (partial name pos body)) false
  unfolding gen_node_partial gen_node
  gen_node_partial-gen_node [] after name pos body hb ha t h =
      partial-prints_of name pos body (gen_node_partial lines_on source is_target after) t h
        (gen_node_partial-IsSilent after ha)
  gen_node_partial-gen_node (e ∷ before) after name pos body (hb, hs) ha t h =
      behind_silent (gen_inline lines_on source is_target e)
        (gen_node_partial lines_on source is_target (before ++ partial name pos body ∷ after))
        (gen_inline-IsSilent e hb)
      ∙ gen_node_partial-gen_node before after name pos body hs ha t h
