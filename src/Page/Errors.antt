-- ===== src/Page/Errors.antt =====
-- codegen.go: when the first pass of `newPageFromTree` fails.
use pushup.Base.{
  ℕ, ◌+◌, ◌≤◌, ◌≡◌, ◌≢◌, ◌⊎◌, refl, Bool, true, false, Option, none, some, List, [], ◌∷◌, length,
  length-append, Bytes, arith,
}
use mathlib.Core.Path.{subst}
use pushup.Tree.Node.{Node, layout, go_code, GoCode, GoCodeContext, inline_go_code, handler_go_code}
use pushup.Page.Defs.{Pass, set_layout, set_handler, visit_code, visit, new_pass}
use pushup.Page.Compact.{all_of, visit_all}
use pushup.Page.Fields.{handler_code, handlers_of, layouts_of}

-- The variables behind `h` handlers and `l` layouts.
abbrev HasHandlers : Pass → ℕ → Type 0
HasHandlers s h = ((s.handler ≡ none) × (h ≡ 0)) ⊎ ((s.handler ≢ none) × (1 ≤ h))

abbrev HasLayouts : Pass → ℕ → Type 0
HasLayouts s l = ((s.layout_set ≡ false) × (l ≡ 0)) ⊎ ((s.layout_set ≡ true) × (1 ≤ l))

abbrev HasErrors : Pass → ℕ → ℕ → Type 0
HasErrors s h l = ((s.error ≡ none) × (h ≤ 1) × (l ≤ 1)) ⊎ ((s.error ≢ none) × ((2 ≤ h) ⊎ (2 ≤ l)))

abbrev pub HasCounted : Pass → ℕ → ℕ → Type 0
HasCounted s h l = HasHandlers s h × HasLayouts s l × HasErrors s h l

set_layout-HasCounted :
    (name : Bytes) (t : Bool) (s : Pass) (h l : ℕ)
    → s.layout_set ≡ t
    → HasCounted s h l
    → HasCounted (set_layout name t s) h (l + 1)
unfolding set_layout
set_layout-HasCounted name true s h l q c = ground (arith, q, c)
set_layout-HasCounted name false s h l q c = ground (arith, q, c)

set_handler-HasCounted :
    (e : GoCode) (o : Option GoCode) (s : Pass) (h l : ℕ)
    → s.handler ≡ o
    → HasCounted s h l
    → HasCounted (set_handler e o s) (h + 1) l
unfolding set_handler
set_handler-HasCounted e none s h l q c = ground (arith, q, c)
set_handler-HasCounted e (some g) s h l q c = ground (arith, q, c)

HasCounted-counts :
    (s : Pass) (h h' l l' : ℕ) → h ≡ h' → l ≡ l' → HasCounted s h l → HasCounted s h' l'
HasCounted-counts s h h' l l' p q c =
    subst (λ x. HasCounted s x l') p (subst (λ y. HasCounted s h y) q c)

HasCounted-plus_none : (s : Pass) (h l : ℕ) → HasCounted s h l → HasCounted s (h + 0) (l + 0)
HasCounted-plus_none s h l c = ground (arith, c)

visit_code-HasCounted :
    (c : GoCodeContext) (e : GoCode) (s : Pass) (h l : ℕ)
    → HasCounted s h l
    → HasCounted (visit_code c e s) (h + length (handler_code c e)) (l + 0)
unfolding visit_code
visit_code-HasCounted handler_go_code e s h l k =
    ground (arith, set_handler-HasCounted e s.handler s h l refl k)
visit_code-HasCounted inline_go_code e s h l k = HasCounted-plus_none s h l k

visit-HasCounted :
    (e : Node) (s : Pass) (h l : ℕ)
    → HasCounted s h l
    → HasCounted (visit e s) (h + length (handlers_of e)) (l + length (layouts_of e))
unfolding visit
visit-HasCounted (layout name pos) s h l k =
    ground (arith, set_layout-HasCounted name s.layout_set s h l refl k)
visit-HasCounted (go_code e) s h l k = visit_code-HasCounted e.context e s h l k
visit-HasCounted e s h l k = HasCounted-plus_none s h l k

visit_all-HasCounted :
    (es : List Node) (s : Pass) (h l : ℕ)
    → HasCounted s h l
    → HasCounted
        (visit_all es s)
        (h + length (all_of handlers_of es))
        (l + length (all_of layouts_of es))
visit_all-HasCounted [] s h l k = HasCounted-plus_none s h l k
visit_all-HasCounted (e ∷ es) s h l k =
    HasCounted-counts (visit_all es (visit e s))
      (h + length (handlers_of e) + length (all_of handlers_of es))
      (h + length (all_of handlers_of (e ∷ es)))
      (l + length (layouts_of e) + length (all_of layouts_of es))
      (l + length (all_of layouts_of (e ∷ es)))
      (omega (arith, length-append (handlers_of e) (all_of handlers_of es)))
      (omega (arith, length-append (layouts_of e) (all_of layouts_of es)))
      (visit_all-HasCounted es (visit e s) (h + length (handlers_of e)) (l + length (layouts_of e))
        (visit-HasCounted e s h l k))

pub new_pass-HasCounted :
    (nodes : List Node)
    → HasCounted
        (visit_all nodes (new_pass nodes))
        (length (all_of handlers_of nodes))
        (length (all_of layouts_of nodes))
unfolding new_pass
new_pass-HasCounted nodes =
    HasCounted-counts (visit_all nodes (new_pass nodes)) (0 + length (all_of handlers_of nodes))
      (length (all_of handlers_of nodes)) (0 + length (all_of layouts_of nodes))
      (length (all_of layouts_of nodes)) (omega arith) (omega arith)
      (visit_all-HasCounted nodes (new_pass nodes) 0 0 (ground arith))
