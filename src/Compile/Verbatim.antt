-- ===== src/Compile/Verbatim.antt =====
-- compiler.go: what becomes of a page or a layout with no transition.
use pushup.Base.{
  ℕ, ◌<◌, ◌≡◌, refl, sym, ap, ◌∙◌, Bool, true, false, some, none, List, [], length, All, Bytes,
}
use mathlib.Core.Path.{subst}
use pushup.Tree.Node.{Node, SyntaxTree}
use pushup.Tree.Coalesce.Merge.{coalesced, optimize-coalesced}
use pushup.Parser.Env.{Env}
use pushup.Parser.Ranges.{texts}
use pushup.Parser.Static.{IsLiteralIn, IsPlainFrom, HasStaticTags}
use pushup.Parser.Verbatim.{parse-IsStatic}
use pushup.Page.Defs.{Partial, Page}
use pushup.Gen.Defs.{Print, generate}
use pushup.Gen.Layout.{Layout, new_layout_from_tree}
use pushup.Gen.Partials.{generate_layout-generate}
use pushup.Compile.Defs.{
  UpFileType, up_file_page, up_file_layout, Compiled, layout_code, page_code, optimized, layout_of,
  page_of, handler_line, section_prints, partial_prints, compile_page, compile_tree, compile_parsed,
  compile,
}
use pushup.Compile.Literals.{
  written, IsConstant, coalesced-IsLiteralIn, new_page_from_tree-IsLiteralIn, All-LacksPartial,
  generate-written,
}

-- The code of a page or a layout, as its kind asks for, with these prints; a page has no sections and no
-- partials.
abbrev pub IsCode : UpFileType → List Print → Compiled → Type 0
IsCode up_file_page prints c = (p : Page) × (c ≡ page_code p prints [] [])
IsCode up_file_layout prints c = (l : Layout) × (c ≡ layout_code l prints)

optimized-IsLiteralIn :
    (apply_optimizations : Bool) (len : ℕ) (tree : SyntaxTree)
    → All (IsLiteralIn len) tree.nodes
    → (out : SyntaxTree) × (optimized apply_optimizations tree ≡ some out)
      × All (IsLiteralIn len) out.nodes
      × (texts out.nodes ≡ texts tree.nodes)
optimized-IsLiteralIn true len tree h =
    let (l, e) = coalesced-IsLiteralIn len tree.nodes h in
    (record { nodes = coalesced tree.nodes }, optimize-coalesced tree, l, e)
optimized-IsLiteralIn false len tree h = (tree, refl, h, refl)

compile_tree-IsLiteralIn :
    (same_node : Partial → Node → Bool) (ftype : UpFileType) (src : Bytes) (tree : SyntaxTree)
    → All (IsLiteralIn (length src)) tree.nodes
    → (prints : List Print) × IsCode ftype prints (compile_tree same_node ftype src (some tree))
      × (written prints ≡ texts tree.nodes)
      × All IsConstant prints
unfolding compile_tree compile_page page_of layout_of handler_line section_prints partial_prints
compile_tree-IsLiteralIn same_node up_file_page src tree h =
    let (p, e, k, h', ss, ps) = new_page_from_tree-IsLiteralIn (length src) tree h in
    let (prints, g, w, c) = generate-written src tree.nodes h in
    let code = page_of p in
    (
      prints,
      (
        p,
        ap (compile_page same_node src) e
            ∙ ap
                (λ l.
                  code l (generate true src p.nodes) (section_prints src p.sections)
                    (partial_prints same_node src p.nodes p.partials))
                (ap (handler_line src) h')
            ∙ ap
                (λ l.
                  code (some none) l (section_prints src p.sections)
                    (partial_prints same_node src p.nodes p.partials))
                (ap (generate true src) k ∙ g)
            ∙ ap
                (λ l.
                  code (some none) (some prints) (section_prints src l)
                    (partial_prints same_node src p.nodes p.partials))
                ss
            ∙ ap
                (λ l.
                  code (some none) (some prints) (some []) (partial_prints same_node src p.nodes l))
                ps,
      ),
      w,
      c,
    )
compile_tree-IsLiteralIn same_node up_file_layout src tree h =
    let l = new_layout_from_tree tree in
    let (same, _) =
      generate_layout-generate true src tree (All-LacksPartial (length src) tree.nodes h) in
    let (prints, g, w, c) = generate-written src tree.nodes h in
    (prints, (l, ap (layout_of l) (same ∙ g)), w, c)

module _ (same_node : Partial → Node → Bool) (env : Env) where
  -- A page or a layout that the tokenizer cuts into tokens with no `^`, of whose tags scanAttrs reports each
  -- as an error or gives attributes that stand in order within the tag and have no `^`, compiles with more
  -- fuel than tokens, with and without optimizations: the code for its nodes writes constants only, which are
  -- together the source of the file, byte for byte, and a page has no sections or partials.
  pub compile-IsStatic :
      (ftype : UpFileType) (apply_optimizations : Bool) (src : Bytes) (n fuel : ℕ)
      → n < fuel
      → IsPlainFrom env src n 0
      → HasStaticTags env src n 0
      → (prints : List Print) × IsCode ftype prints
          (compile same_node env fuel ftype apply_optimizations src)
        × (written prints ≡ src)
        × All IsConstant prints
  unfolding compile compile_parsed
  compile-IsStatic ftype apply_optimizations src n fuel lt h k =
      let (tree, e, text, lits) = parse-IsStatic env src n fuel lt h k in
      let (out, e', lits', text') =
        optimized-IsLiteralIn apply_optimizations (length src) tree lits in
      let (prints, code, w, c) = compile_tree-IsLiteralIn same_node ftype src out lits' in
      let same : compile same_node env fuel ftype apply_optimizations src
          ≡ compile_tree same_node ftype src (some out) =
        ap (compile_parsed same_node ftype apply_optimizations src) e
        ∙ ap (compile_tree same_node ftype src) e' in
      (prints, subst (IsCode ftype prints) (sym same) code, w ∙ (text' ∙ text), c)
