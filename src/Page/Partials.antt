-- ===== src/Page/Partials.antt =====
-- codegen.go: the inline partials of a page and their URL paths.
use pushup.Base.{
  ◌≡◌, refl, sym, ap, ◌∙◌, Option, none, some, List, [], ◌∷◌, ◌++◌, map, length, take, append-nil,
  append_assoc, Bytes, join,
}
use mathlib.Core.Path.{subst}
use mathlib.Core.List.{map-append}
use pushup.Tree.Node.{
  Node, Nodes, Alt, nil, cons, no_alt, alt, element, if_stmt, for_stmt, block, section, partial,
  SyntaxTree,
}
use pushup.Page.Defs.{
  Partial, top_partial, sub_partial, segments, urlpath, child_of, collect, collect_all, collect_alt,
  collect_list, Pass, PageError, Page, PageResult, failed, made, first_pass, new_pass, finish,
  new_page_from_tree,
}
use pushup.Page.Compact.{all_of}

-- The paths of the partials in a node that stands in partials of the names `outer`: those inside a
-- partial come before it, and each is the names down to it with slashes between.
unfoldable mutual
  pub paths_of : List Bytes → Node → List Bytes
  paths_of outer (element t start_tag_nodes children pos closing) =
      paths_all outer start_tag_nodes ++ paths_all outer children
  paths_of outer (if_stmt cond then_block else_alt) =
      paths_all outer then_block ++ paths_alt outer else_alt
  paths_of outer (for_stmt clause body) = paths_all outer body
  paths_of outer (block body) = paths_all outer body
  paths_of outer (section name pos body) = paths_all outer body
  paths_of outer (partial name pos body) =
      paths_all (outer ++ name ∷ []) body ++ join b'/' (outer ++ name ∷ []) ∷ []
  paths_of outer e = []

  pub paths_all : List Bytes → Nodes → List Bytes
  paths_all outer nil = []
  paths_all outer (cons e es) = paths_of outer e ++ paths_all outer es

  pub paths_alt : List Bytes → Alt → List Bytes
  paths_alt outer no_alt = []
  paths_alt outer (alt e) = paths_of outer e

-- The names from the outermost partial down.
abbrev names : Partial → List Bytes
names (top_partial n name) = name ∷ []
names (sub_partial n name parent) = names parent ++ name ∷ []

abbrev outer_names : Option Partial → List Bytes
outer_names none = []
outer_names (some p) = names p

segments-names : (p : Partial) (acc : List Bytes) → segments p acc ≡ names p ++ acc
unfolding segments
segments-names (top_partial n name) acc = refl
segments-names (sub_partial n name parent) acc =
    segments-names parent (name ∷ acc) ∙ sym (append_assoc (names parent) (name ∷ []) acc)

urlpath-names : (p : Partial) → urlpath p ≡ join b'/' (names p)
unfolding urlpath
urlpath-names p = ap (join b'/') (segments-names p [] ∙ append-nil (names p))

names-child_of :
    (curr : Option Partial) (e : Node) (name : Bytes)
    → names (child_of curr e name) ≡ outer_names curr ++ name ∷ []
names-child_of none e name = refl
names-child_of (some p) e name = refl

-- A walk that puts its paths behind those of the partials found before.
abbrev HasPaths : List Partial → List Partial → List Bytes → Type 0
HasPaths ps ps' paths = map urlpath ps' ≡ map urlpath ps ++ paths

HasPaths-append :
    (a b c : List Partial) (xs ys : List Bytes)
    → HasPaths a b xs
    → HasPaths b c ys
    → HasPaths a c (xs ++ ys)
HasPaths-append a b c xs ys h k = k ∙ (ap (λ l. l ++ ys) h ∙ append_assoc (map urlpath a) xs ys)

HasPaths-nil : (a : List Partial) → HasPaths a a []
HasPaths-nil a = sym (append-nil (map urlpath a))

HasPaths-snoc :
    (a : List Partial) (p : Partial) (path : Bytes)
    → urlpath p ≡ path
    → HasPaths a (a ++ p ∷ []) (path ∷ [])
HasPaths-snoc a p path h = map-append urlpath a (p ∷ []) ∙ ap (λ x. map urlpath a ++ x ∷ []) h

mutual
  unfolding collect paths_of

  collect-paths :
      (curr : Option Partial) (e : Node) (ps : List Partial)
      → HasPaths ps (collect curr e ps) (paths_of (outer_names curr) e)
  collect-paths curr (element t ss cs pos closing) ps =
      HasPaths-append ps (collect_all curr ss ps) (collect_all curr cs (collect_all curr ss ps))
        (paths_all (outer_names curr) ss) (paths_all (outer_names curr) cs)
        (collect_all-paths curr ss ps) (collect_all-paths curr cs (collect_all curr ss ps))
  collect-paths curr (if_stmt cond body other) ps =
      HasPaths-append ps (collect_all curr body ps)
        (collect_alt curr other (collect_all curr body ps)) (paths_all (outer_names curr) body)
        (paths_alt (outer_names curr) other) (collect_all-paths curr body ps)
        (collect_alt-paths curr other (collect_all curr body ps))
  collect-paths curr (for_stmt clause body) ps = collect_all-paths curr body ps
  collect-paths curr (block body) ps = collect_all-paths curr body ps
  collect-paths curr (section name pos body) ps = collect_all-paths curr body ps
  collect-paths curr (partial name pos body) ps =
      let p = child_of curr (partial name pos body) name in
      let inner = collect_all (some p) body ps in
      subst (λ ns. HasPaths ps (inner ++ p ∷ []) (paths_all ns body ++ join b'/' ns ∷ []))
        (names-child_of curr (partial name pos body) name)
        (HasPaths-append ps inner (inner ++ p ∷ []) (paths_all (names p) body)
          (join b'/' (names p) ∷ []) (collect_all-paths (some p) body ps)
          (HasPaths-snoc inner p (join b'/' (names p)) (urlpath-names p)))
  collect-paths curr e ps = HasPaths-nil ps

  collect_all-paths :
      (curr : Option Partial) (es : Nodes) (ps : List Partial)
      → HasPaths ps (collect_all curr es ps) (paths_all (outer_names curr) es)
  collect_all-paths curr nil ps = HasPaths-nil ps
  collect_all-paths curr (cons e es) ps =
      HasPaths-append ps (collect curr e ps) (collect_all curr es (collect curr e ps))
        (paths_of (outer_names curr) e) (paths_all (outer_names curr) es) (collect-paths curr e ps)
        (collect_all-paths curr es (collect curr e ps))

  collect_alt-paths :
      (curr : Option Partial) (other : Alt) (ps : List Partial)
      → HasPaths ps (collect_alt curr other ps) (paths_alt (outer_names curr) other)
  collect_alt-paths curr no_alt ps = HasPaths-nil ps
  collect_alt-paths curr (alt e) ps = collect-paths curr e ps

collect_list-paths :
    (es : List Node) (ps : List Partial)
    → HasPaths ps (collect_list es ps) (all_of (paths_of []) es)
unfolding collect_list
collect_list-paths [] ps = HasPaths-nil ps
collect_list-paths (e ∷ es) ps =
    HasPaths-append ps (collect none e ps) (collect_list es (collect none e ps)) (paths_of [] e)
      (all_of (paths_of []) es) (collect-paths none e ps)
      (collect_list-paths es (collect none e ps))

abbrev HasPagePaths : PageResult → Type 0
HasPagePaths (failed e) = Unit
HasPagePaths (made p) = map urlpath p.partials ≡ all_of (paths_of []) p.nodes

finish-HasPagePaths : (s : Pass) (e : Option PageError) → HasPagePaths (finish s e)
unfolding finish
finish-HasPagePaths s (some e) = tt
finish-HasPagePaths s none = collect_list-paths (take s.n s.nodes) []

-- The URL paths of a page's partials are those of the partials in the page's nodes, at any depth, the
-- inner ones before the one that they stand in: the path of each is the names of the partials around
-- it and its own, from the outermost, with slashes between.
pub new_page_from_tree-urlpath :
    (tree : SyntaxTree) (p : Page)
    → new_page_from_tree tree ≡ made p
    → map urlpath p.partials ≡ all_of (paths_of []) p.nodes
unfolding new_page_from_tree
new_page_from_tree-urlpath tree p h =
    let s = first_pass (length tree.nodes) 0 (new_pass tree.nodes) in
    subst HasPagePaths h (finish-HasPagePaths s s.error)
