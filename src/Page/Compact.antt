-- ===== src/Page/Compact.antt =====
-- codegen.go: the first pass of `newPageFromTree` on its slice, which it reads while it moves the nodes
-- that a page keeps to the front.
use pushup.Base.{
  ℕ, ◌+◌, ◌≡◌, ◌⊎◌, inl, inr, refl, sym, ap, ◌∙◌, Bool, true, false, Option, none, some, List, [],
  ◌∷◌, ◌++◌, length, length-append, take, set, get_elem?, get_elem?-append_end, set-append_end,
  take-append_length, append-nil, append_assoc, Bytes, arith,
}
use pushup.Tree.Node.{
  Span, Node, go_code, section, import_decl, layout, GoCode, GoCodeContext, inline_go_code,
  handler_go_code,
}
use pushup.Page.Defs.{
  Pass, set_layout, set_handler, visit_code, visit, visit_at, first_pass, new_pass,
}

-- The nodes that stay in the page.
abbrev pub kept_code : GoCodeContext → GoCode → List Node
kept_code handler_go_code e = []
kept_code inline_go_code e = go_code e ∷ []

abbrev pub kept_of : Node → List Node
kept_of (import_decl decl pos) = []
kept_of (layout name pos) = []
kept_of (section name pos body) = []
kept_of (go_code e) = kept_code e.context e
kept_of e = e ∷ []

-- All that the nodes of a list contribute.
abbrev pub all_of {ℓ} : {A : Type ℓ} → (Node → List A) → List Node → List A
all_of f [] = []
all_of f (e ∷ es) = f e ++ all_of f es

-- A node is kept, or nothing of the slice is changed.
abbrev IsVisited : Node → List Node → Pass → Pass → Type 0
IsVisited e ks s s' =
    ((s'.nodes ≡ s.nodes) × (s'.n ≡ s.n) × (ks ≡ []))
    ⊎ ((s'.nodes ≡ set s.nodes s.n e) × (s'.n ≡ s.n + 1) × (ks ≡ e ∷ []))

set_layout-IsVisited :
    (name : Bytes) (pos : Span) (t : Bool) (s : Pass)
    → IsVisited (layout name pos) [] s (set_layout name t s)
unfolding set_layout
set_layout-IsVisited name pos true s = inl (refl, refl, refl)
set_layout-IsVisited name pos false s = inl (refl, refl, refl)

set_handler-nodes :
    (e : GoCode) (h : Option GoCode) (s : Pass)
    → ((set_handler e h s).nodes ≡ s.nodes) × ((set_handler e h s).n ≡ s.n)
unfolding set_handler
set_handler-nodes e none s = (refl, refl)
set_handler-nodes e (some h) s = (refl, refl)

visit_code-IsVisited :
    (c : GoCodeContext) (e : GoCode) (s : Pass)
    → IsVisited (go_code e) (kept_code c e) s (visit_code c e s)
unfolding visit_code
visit_code-IsVisited inline_go_code e s = inr (refl, refl, refl)
visit_code-IsVisited handler_go_code e s =
    let (a, b) = set_handler-nodes e s.handler s in inl (a, b, refl)

visit-IsVisited : (e : Node) (s : Pass) → IsVisited e (kept_of e) s (visit e s)
unfolding visit
visit-IsVisited (import_decl decl pos) s = inl (refl, refl, refl)
visit-IsVisited (layout name pos) s = set_layout-IsVisited name pos s.layout_set s
visit-IsVisited (section name pos body) s = inl (refl, refl, refl)
visit-IsVisited (go_code e) s = visit_code-IsVisited e.context e s
visit-IsVisited _ s = inr (refl, refl, refl)

-- What the pass does, on the nodes themselves.
abbrev pub visit_all : List Node → Pass → Pass
visit_all [] s = s
visit_all (e ∷ es) s = visit_all es (visit e s)

-- The slice is the nodes kept, some that are dead, and the nodes to come, at index `i`.
abbrev IsSplit : List Node → List Node → List Node → ℕ → Pass → Type 0
IsSplit kept dead es i s =
    (s.nodes ≡ kept ++ (dead ++ es)) × (s.n ≡ length kept) × (i ≡ length kept + length dead)

visit-IsSplit :
    (kept dead : List Node) (e : Node) (es : List Node) (i : ℕ) (s s' : Pass)
    → IsSplit kept dead (e ∷ es) i s
    → IsVisited e (kept_of e) s s'
    → (dead' : List Node) × IsSplit (kept ++ kept_of e) dead' es (i + 1) s'
visit-IsSplit kept dead e es i s s' (a, b, c) (inl (h, k, z)) = (
  dead ++ e ∷ [],
  (
    rw (z, append-nil kept, append_assoc dead (e ∷ []) es) (h ∙ a),
    rw (z, append-nil kept) (k ∙ b),
    rw (z, append-nil kept) (omega (arith, c, length-append dead (e ∷ []))),
  ),
)
visit-IsSplit kept [] e es i s s' (a, b, c) (inr (h, k, z)) = (
  [],
  (
    rw (z, append_assoc kept (e ∷ []) es)
        (h
          ∙ (ap (λ ns. set ns s.n e) a
              ∙ (ap (λ m. set (kept ++ e ∷ es) m e) b ∙ set-append_end kept e e es))),
    rw (z, length-append kept (e ∷ [])) (omega (arith, k, b)),
    rw (z, length-append kept (e ∷ [])) (omega (arith, c)),
  ),
)
visit-IsSplit kept (d ∷ dead) e es i s s' (a, b, c) (inr (h, k, z)) = (
  dead ++ e ∷ [],
  (
    rw (z, append_assoc kept (e ∷ []) ((dead ++ e ∷ []) ++ es), append_assoc dead (e ∷ []) es)
        (h
          ∙ (ap (λ ns. set ns s.n e) a
              ∙ (ap (λ m. set (kept ++ d ∷ (dead ++ e ∷ es)) m e) b
                  ∙ set-append_end kept d e (dead ++ e ∷ es)))),
    rw (z, length-append kept (e ∷ [])) (omega (arith, k, b)),
    rw (z, length-append kept (e ∷ [])) (omega (arith, c, length-append dead (e ∷ []))),
  ),
)

IsSplit-get_elem? :
    (kept dead : List Node) (e : Node) (es : List Node) (i : ℕ) (s : Pass)
    → IsSplit kept dead (e ∷ es) i s
    → get_elem? s.nodes i ≡ some e
IsSplit-get_elem? kept dead e es i s (a, b, c) =
    ap (λ ns. get_elem? ns i) (a ∙ sym (append_assoc kept dead (e ∷ es)))
    ∙ (ap (get_elem? ((kept ++ dead) ++ e ∷ es)) (c ∙ sym (length-append kept dead))
        ∙ get_elem?-append_end (kept ++ dead) e es)

first_pass-visit_all :
    (kept dead es : List Node) (i : ℕ) (s : Pass)
    → IsSplit kept dead es i s
    → first_pass (length es) i s ≡ visit_all es s
unfolding first_pass visit_at
first_pass-visit_all kept dead [] i s h = refl
first_pass-visit_all kept dead (e ∷ es) i s h =
    let (dead', h') = visit-IsSplit kept dead e es i s (visit e s) h (visit-IsVisited e s) in
    ap (λ o. first_pass (length es) (i + 1) (visit_at o s)) (IsSplit-get_elem? kept dead e es i s h)
    ∙ first_pass-visit_all (kept ++ kept_of e) dead' es (i + 1) (visit e s) h'

visit_all-nodes :
    (kept dead es : List Node) (i : ℕ) (s : Pass)
    → IsSplit kept dead es i s
    → take (visit_all es s).n (visit_all es s).nodes ≡ kept ++ all_of kept_of es
visit_all-nodes kept dead [] i s (a, b, c) =
    ap (λ m. take m s.nodes) b
    ∙ (ap (take (length kept)) a ∙ (take-append_length kept (dead ++ []) ∙ sym (append-nil kept)))
visit_all-nodes kept dead (e ∷ es) i s h =
    let (dead', h') = visit-IsSplit kept dead e es i s (visit e s) h (visit-IsVisited e s) in
    visit_all-nodes (kept ++ kept_of e) dead' es (i + 1) (visit e s) h'
    ∙ append_assoc kept (kept_of e) (all_of kept_of es)

-- The pass on the slice is `visit` on each node, and the front of the slice ends as the nodes kept.
pub first_pass-new_pass :
    (nodes : List Node)
    → first_pass (length nodes) 0 (new_pass nodes) ≡ visit_all nodes (new_pass nodes)
unfolding new_pass
first_pass-new_pass nodes = first_pass-visit_all [] [] nodes 0 (new_pass nodes) (refl, refl, refl)

pub visit_all-new_pass :
    (nodes : List Node)
    → take (visit_all nodes (new_pass nodes)).n (visit_all nodes (new_pass nodes)).nodes
      ≡ all_of kept_of nodes
unfolding new_pass
visit_all-new_pass nodes = visit_all-nodes [] [] nodes 0 (new_pass nodes) (refl, refl, refl)
