-- ===== src/Compile/Literals.antt =====
-- What the optimizer and the generators make of nodes that are all literals.
use pushup.Base.{
  ℕ, ◌+◌, ◌≡◌, refl, ap, ◌∙◌, inl, inr, true, Option, none, some, List, [], ◌∷◌, ◌++◌, map,
  append_assoc, length, All, Bytes, take, arith,
}
use mathlib.Core.Path.{subst}
use pushup.Tree.Node.{Node, literal, SyntaxTree}
use pushup.Tree.Coalesce.{joined}
use pushup.Tree.Coalesce.Merge.{merge, coalesced}
use pushup.Page.Defs.{Partial, urlpath, Page, PageResult, failed, made, new_page_from_tree}
use pushup.Page.Compact.{kept_of, all_of}
use pushup.Page.Fields.{handlers_of, layouts_of, sections_of, first_or, push_all}
use pushup.Page.Partials.{paths_of, new_page_from_tree-urlpath}
use pushup.Page.Made.{IsPageOf, new_page_from_tree-IsPageOf}
use pushup.Gen.Defs.{
  Print, write_string, line_directive, line_no, line_directive_at, node_line_no, line_count,
  gen_node, generate,
}
use pushup.Gen.Partials.{LacksPartial}
use pushup.Parser.Ranges.{text_of, texts}
use pushup.Parser.Static.{IsLiteralIn}

-- What the code writes by `io.WriteString`.
abbrev pub written_by : Print → Bytes
written_by (write_string s) = s
written_by e = []

abbrev pub written : List Print → Bytes
written [] = []
written (x ∷ xs) = written_by x ++ written xs

-- A constant that is written, or a line directive.
abbrev pub IsConstant : Print → Type 0
IsConstant (write_string s) = Unit
IsConstant (line_directive n) = Unit
IsConstant e = ⊥

module _ (len : ℕ) where
  -- A literal that takes in its neighbour.
  joined-IsLiteralIn :
      (x y z : Node)
      → joined x y ≡ some z
      → IsLiteralIn len x
      → IsLiteralIn len z × (text_of z ≡ text_of x ++ text_of y)
  unfolding joined
  joined-IsLiteralIn (literal s p) (literal t q) z j h =
      let same : literal (s ++ t) (record p { end = q.end }) ≡ z = ground (arith, j) in
      subst (λ e. IsLiteralIn len e × (text_of e ≡ s ++ t)) same (h, refl)
  joined-IsLiteralIn (literal s p) _ z j h = absurd (ground (arith, j))
  joined-IsLiteralIn _ y z j h = absurd h

  merge-IsLiteralIn :
      (x : Node) (ns : List Node)
      → IsLiteralIn len x
      → All (IsLiteralIn len) ns
      → All (IsLiteralIn len) (merge x ns) × (texts (merge x ns) ≡ text_of x ++ texts ns)
  unfolding merge
  merge-IsLiteralIn x [] h k = ((h, tt), refl)
  merge-IsLiteralIn x (y ∷ ns) h (i, k) =
      by_join (joined x y) refl (λ z l. merge-IsLiteralIn z ns l k) (merge-IsLiteralIn y ns i k)
    where
      by_join :
          (j : Option Node)
          → joined x y ≡ j
          → ((z : Node)
              → IsLiteralIn len z
              → All (IsLiteralIn len) (merge z ns) × (texts (merge z ns) ≡ text_of z ++ texts ns))
          → All (IsLiteralIn len) (merge y ns) × (texts (merge y ns) ≡ text_of y ++ texts ns)
          → All (IsLiteralIn len) (merge x (y ∷ ns))
            × (texts (merge x (y ∷ ns)) ≡ text_of x ++ texts (y ∷ ns))
      by_join (some z) j rec rec' =
          let (l, e) = joined-IsLiteralIn x y z j h in
          let (ls, es) = rec z l in
          rw (j, merge)
            (ls, es ∙ (ap (λ t. t ++ texts ns) e ∙ append_assoc (text_of x) (text_of y) (texts ns)))
      by_join none j rec (ls, es) = rw (j, merge) ((h, ls), ap (λ t. text_of x ++ t) es)

  pub coalesced-IsLiteralIn :
      (ns : List Node)
      → All (IsLiteralIn len) ns
      → All (IsLiteralIn len) (coalesced ns) × (texts (coalesced ns) ≡ texts ns)
  unfolding coalesced
  coalesced-IsLiteralIn [] h = (tt, refl)
  coalesced-IsLiteralIn (x ∷ ns) (h, k) = merge-IsLiteralIn x ns h k

  -- `newPageFromTree` keeps literals, and takes nothing else from them.
  kept : (ns : List Node) → All (IsLiteralIn len) ns → all_of kept_of ns ≡ ns
  kept [] h = refl
  kept (literal s p ∷ ns) (h, k) = ap (λ t. literal s p ∷ t) (kept ns k)
  kept (_ ∷ ns) (h, k) = absurd h

  no_handlers : (ns : List Node) → All (IsLiteralIn len) ns → all_of handlers_of ns ≡ []
  no_handlers [] h = refl
  no_handlers (literal s p ∷ ns) (h, k) = no_handlers ns k
  no_handlers (_ ∷ ns) (h, k) = absurd h

  no_layouts : (ns : List Node) → All (IsLiteralIn len) ns → all_of layouts_of ns ≡ []
  no_layouts [] h = refl
  no_layouts (literal s p ∷ ns) (h, k) = no_layouts ns k
  no_layouts (_ ∷ ns) (h, k) = absurd h

  no_sections : (ns : List Node) → All (IsLiteralIn len) ns → all_of sections_of ns ≡ []
  no_sections [] h = refl
  no_sections (literal s p ∷ ns) (h, k) = no_sections ns k
  no_sections (_ ∷ ns) (h, k) = absurd h

  no_paths : (ns : List Node) → All (IsLiteralIn len) ns → all_of (paths_of []) ns ≡ []
  unfolding paths_of
  no_paths [] h = refl
  no_paths (literal s p ∷ ns) (h, k) = no_paths ns k
  no_paths (_ ∷ ns) (h, k) = absurd h

  map-nil : (ps : List Partial) → map urlpath ps ≡ [] → ps ≡ []
  map-nil [] e = refl
  map-nil (p ∷ ps) e = absurd (ground (arith, e))

  pub new_page_from_tree-IsLiteralIn :
      (tree : SyntaxTree)
      → All (IsLiteralIn len) tree.nodes
      → (p : Page) × (new_page_from_tree tree ≡ made p)
        × (p.nodes ≡ tree.nodes)
        × (p.handler ≡ none)
        × (p.sections ≡ [])
        × (p.partials ≡ [])
  new_page_from_tree-IsLiteralIn tree h =
      by_result (new_page_from_tree tree) refl (new_page_from_tree-IsPageOf tree)
    where
      by_result :
          (r : PageResult)
          → new_page_from_tree tree ≡ r
          → IsPageOf tree.nodes r
          → (p : Page) × (new_page_from_tree tree ≡ made p)
            × (p.nodes ≡ tree.nodes)
            × (p.handler ≡ none)
            × (p.sections ≡ [])
            × (p.partials ≡ [])
      by_result (failed e) q (inl k) =
          absurd (omega (arith, k, ap length (no_handlers tree.nodes h)))
      by_result (failed e) q (inr k) =
          absurd (omega (arith, k, ap length (no_layouts tree.nodes h)))
      by_result (made p) q (a, b, c, i, hs, l, ss) =
          let nodes = c ∙ kept tree.nodes h in
          (
            p,
            q,
            nodes,
            hs ∙ ap (first_or none) (no_handlers tree.nodes h),
            ss ∙ ap (λ l. push_all l []) (no_sections tree.nodes h),
            map-nil p.partials (
                new_page_from_tree-urlpath tree p q
                ∙ ap (all_of (paths_of [])) nodes
                ∙ no_paths tree.nodes h),
          )

  pub All-LacksPartial : (ns : List Node) → All (IsLiteralIn len) ns → All LacksPartial ns
  unfolding LacksPartial
  All-LacksPartial [] h = tt
  All-LacksPartial (literal s p ∷ ns) (h, k) = (tt, All-LacksPartial ns k)
  All-LacksPartial (_ ∷ ns) (h, k) = absurd h

-- The code for literals that stand in the source writes their texts.
pub generate-written :
    (src : Bytes) (ns : List Node)
    → All (IsLiteralIn (length src)) ns
    → (prints : List Print) × (generate true src ns ≡ some prints)
      × (written prints ≡ texts ns)
      × All IsConstant prints
unfolding generate gen_node node_line_no line_directive_at line_no
generate-written src [] h = ([], refl, refl, tt)
generate-written src (literal s p ∷ ns) (h, k) =
    let (xs, e, t, c) = generate-written src ns k in
    (
      line_directive (line_count (take (p.start + 1) src)) ∷ write_string s ∷ xs,
      ground (arith, e, h),
      ap (λ t. s ++ t) t,
      (tt, (tt, c)),
    )
generate-written src (_ ∷ ns) (h, k) = absurd h
