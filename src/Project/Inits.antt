-- ===== src/Project/Inits.antt =====
-- codegen.go: the routes that the code of a page adds to the runtime's table.
use mathlib.Core.Path.{subst}
use pushup.Base.{
  ℕ, ◌≡◌, refl, ap, sym, arith, ◌∙◌, Bool, false, Option, none, some, List, [], ◌∷◌, ◌++◌, map,
  Bytes, codes,
}
use pushup.Tree.Node.{Node, SyntaxTree}
use pushup.Page.Defs.{Partial, urlpath, Page, made, new_page_from_tree}
use pushup.Page.Compact.{all_of}
use pushup.Page.Partials.{paths_of, new_page_from_tree-urlpath}
use pushup.Runtime.Route.{route_page, route_partial}
use pushup.Gen.Defs.{Print, generate}
use pushup.Gen.Inline.{gen_node_partial}
use pushup.Gen.Typenames.{typename_from_path}
use pushup.Project.Files.{
  ProjectFile, relpath, without_ext, route_for_page, route_for_partial, generated_typename,
  generated_typename_partial,
}
use pushup.Project.PageCode.{
  init_func, Piece, InitRoute, PageCode, handler_code, sections_code, main_of, partial_of, both,
  with_init, main_page, partial_page, partial_pages, gen_code_page,
}

-- What the init function of some code adds.
abbrev HasInits : Option PageCode → List InitRoute → Type 0
HasInits none rs = Unit
HasInits (some g) rs = g.inits ≡ rs

module _ (quote : Bytes → Bytes) (args : Bytes) (same_node : Partial → Node → Bool)
    (is_letter is_number : ℕ → Bool) (to_upper : ℕ → ℕ) (to_runes : Bytes → List ℕ)
    (of_runes : List ℕ → Bytes) (line_directives_enabled : Bool) (source : Bytes) where
  abbrev typename_of : Bytes → Bytes
  typename_of path = of_runes (typename_from_path is_letter is_number to_upper (to_runes path))

  abbrev pub page_init : Bytes → InitRoute
  page_init path = record {
    typename = typename_of (without_ext path) ++ codes "Page";
    route = route_for_page path;
    role = route_page;
  }

  abbrev pub partial_init : Bytes → Bytes → InitRoute
  partial_init path u = record {
    typename = typename_of (without_ext path ++ b'/' ∷ u) ++ codes "Partial";
    route = route_for_partial path u;
    role = route_partial;
  }

  main_of-HasInits :
      (page : Page) (path : Bytes) (handler : Option (List Piece)) (contents : Option (List Print))
      (sections : Option (List Piece))
      → HasInits
          (main_of quote args same_node is_letter is_number to_upper to_runes of_runes
            line_directives_enabled source page
            (typename_of (without_ext path) ++ codes "Page")
            path
            handler
            contents
            sections)
          (page_init path ∷ [])
  unfolding main_of
  main_of-HasInits page path none contents sections = tt
  main_of-HasInits page path (some h) none sections = tt
  main_of-HasInits page path (some h) (some c) none = tt
  main_of-HasInits page path (some h) (some c) (some s) = refl

  partial_of-HasInits :
      (p : Partial) (path : Bytes) (handler : Option (List Piece))
      (inner : Option (List Print × Bool))
      → HasInits
          (partial_of quote args same_node is_letter is_number to_upper to_runes of_runes
            line_directives_enabled source p
            (typename_of (without_ext path ++ b'/' ∷ urlpath p) ++ codes "Partial")
            path
            handler
            inner)
          (partial_init path (urlpath p) ∷ [])
  unfolding partial_of
  partial_of-HasInits p path none inner = tt
  partial_of-HasInits p path (some h) none = tt
  partial_of-HasInits p path (some h) (some (i, s)) = refl

  both-HasInits :
      (a b : Option PageCode) (rs ss : List InitRoute)
      → HasInits a rs
      → HasInits b ss
      → HasInits
          (both quote args same_node is_letter is_number to_upper to_runes of_runes
            line_directives_enabled source a b)
          (rs ++ ss)
  unfolding both
  both-HasInits none b rs ss h k = tt
  both-HasInits (some a) none rs ss h k = tt
  both-HasInits (some a) (some b) rs ss h k = ap (λ l. l ++ b.inits) h ∙ ap (λ l. rs ++ l) k

  with_init-HasInits :
      (a : Option PageCode) (rs : List InitRoute)
      → HasInits a rs
      → HasInits
          (with_init quote args same_node is_letter is_number to_upper to_runes of_runes
            line_directives_enabled source a)
          rs
  unfolding with_init
  with_init-HasInits none rs h = tt
  with_init-HasInits (some a) rs h = h

  main_page-HasInits :
      (f : ProjectFile) (page : Page) (path : Bytes)
      → relpath f ≡ some path
      → HasInits
          (main_page quote args same_node is_letter is_number to_upper to_runes of_runes
            line_directives_enabled source f page)
          (page_init path ∷ [])
  unfolding main_page generated_typename
  main_page-HasInits f page path r = rw r (
      main_of-HasInits page path
        (handler_code quote args same_node is_letter is_number to_upper to_runes of_runes
          line_directives_enabled source page.handler)
        (generate line_directives_enabled source page.nodes)
        (sections_code quote args same_node is_letter is_number to_upper to_runes of_runes
          line_directives_enabled source page.sections))

  partial_page-HasInits :
      (f : ProjectFile) (page : Page) (p : Partial) (path : Bytes)
      → relpath f ≡ some path
      → HasInits
          (partial_page quote args same_node is_letter is_number to_upper to_runes of_runes
            line_directives_enabled source f page p)
          (partial_init path (urlpath p) ∷ [])
  unfolding partial_page generated_typename_partial
  partial_page-HasInits f page p path r = rw r (
      partial_of-HasInits p path
        (handler_code quote args same_node is_letter is_number to_upper to_runes of_runes
          line_directives_enabled source page.handler)
        (gen_node_partial line_directives_enabled source (same_node p) page.nodes false))

  partial_pages-HasInits :
      (f : ProjectFile) (page : Page) (ps : List Partial) (path : Bytes)
      → relpath f ≡ some path
      → HasInits
          (partial_pages quote args same_node is_letter is_number to_upper to_runes of_runes
            line_directives_enabled source f page ps)
          (map (partial_init path) (map urlpath ps))
  unfolding partial_pages
  partial_pages-HasInits f page [] path r = refl
  partial_pages-HasInits f page (p ∷ ps) path r =
      both-HasInits
        (partial_page quote args same_node is_letter is_number to_upper to_runes of_runes
          line_directives_enabled source f page p)
        (partial_pages quote args same_node is_letter is_number to_upper to_runes of_runes
          line_directives_enabled source f page ps)
        (partial_init path (urlpath p) ∷ []) (map (partial_init path) (map urlpath ps))
        (partial_page-HasInits f page p path r) (partial_pages-HasInits f page ps path r)

  with_init-body :
      (a : Option PageCode) (g : PageCode)
      → with_init quote args same_node is_letter is_number to_upper to_runes of_runes
          line_directives_enabled source a
        ≡ some g
      → (front : List Piece) × (g.body ≡ front ++ init_func quote g.inits)
  unfolding with_init
  with_init-body none g e = absurd (ground (arith, e))
  with_init-body (some a) g e = (
    a.body,
    sym (ap (λ o. body_or [] o) e)
        ∙ ap (λ rs. a.body ++ init_func quote rs) (ap (λ o. inits_or [] o) e),
  )
    where
      body_or : List Piece → Option PageCode → List Piece
      body_or d none = d
      body_or d (some g) = g.body

      inits_or : List InitRoute → Option PageCode → List InitRoute
      inits_or d none = d
      inits_or d (some g) = g.inits

  inits_of :
      (tree : SyntaxTree) (f : ProjectFile) (page : Page) (path : Bytes) (g : PageCode)
      → new_page_from_tree tree ≡ made page
      → relpath f ≡ some path
      → gen_code_page quote args same_node is_letter is_number to_upper to_runes of_runes
          line_directives_enabled source f page
        ≡ some g
      → g.inits ≡ page_init path ∷ map (partial_init path) (all_of (paths_of []) page.nodes)
  unfolding gen_code_page
  inits_of tree f page path g h r e =
      let main =
        main_page quote args same_node is_letter is_number to_upper to_runes of_runes
          line_directives_enabled source f page in
      let partials =
        partial_pages quote args same_node is_letter is_number to_upper to_runes of_runes
          line_directives_enabled source f page page.partials in
      let rs = map (partial_init path) (map urlpath page.partials) in
      let whole =
        with_init-HasInits
          (both quote args same_node is_letter is_number to_upper to_runes of_runes
            line_directives_enabled source main partials)
          (page_init path ∷ rs)
          (both-HasInits main partials (page_init path ∷ []) rs (main_page-HasInits f page path r)
            (partial_pages-HasInits f page page.partials path r)) in
      subst (λ o. HasInits o (page_init path ∷ rs)) e whole
      ∙ ap (λ us. page_init path ∷ map (partial_init path) us)
          (new_page_from_tree-urlpath tree page h)

  -- For a page made from a syntax tree, and any file, the generated code ends in an init function that adds
  -- one route for the page and then one for each partial in the page's nodes, at any depth, inner ones
  -- before the one that they stand in: the route of each partial is made of the page's path and the names
  -- down to it, and its type is named after both. The page's nodes are those of the tree without its
  -- top-level sections, imports, layouts and handlers.
  pub gen_code_page-inits :
      (tree : SyntaxTree) (f : ProjectFile) (page : Page) (path : Bytes) (g : PageCode)
      → new_page_from_tree tree ≡ made page
      → relpath f ≡ some path
      → gen_code_page quote args same_node is_letter is_number to_upper to_runes of_runes
          line_directives_enabled source f page
        ≡ some g
      → (front : List Piece) × (g.body
          ≡ front
            ++ init_func quote
                (page_init path ∷ map (partial_init path) (all_of (paths_of []) page.nodes)))
  unfolding gen_code_page
  gen_code_page-inits tree f page path g h r e =
      let (front, b) =
        with_init-body
          (both quote args same_node is_letter is_number to_upper to_runes of_runes
            line_directives_enabled source
            (main_page quote args same_node is_letter is_number to_upper to_runes of_runes
              line_directives_enabled source f page)
            (partial_pages quote args same_node is_letter is_number to_upper to_runes of_runes
              line_directives_enabled source f page page.partials))
          g e in
      (front, b ∙ ap (λ rs. front ++ init_func quote rs) (inits_of tree f page path g h r e))
