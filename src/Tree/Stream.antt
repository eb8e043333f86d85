-- ===== src/Tree/Stream.antt =====
-- ast.go: a tree laid out flat, and a pass over it that calls a callback.
use pushup.Base.{
  ℕ, zero, suc, ◌≡◌, refl, ap, ◌∙◌, Bool, true, false, Option, none, some, List, [], ◌∷◌, ◌++◌,
  if◌then◌else◌, append_assoc,
}
use pushup.Tree.Node.{
  Node, Nodes, Alt, nil, cons, no_alt, alt, element, go_str_expr, go_code, if_stmt, for_stmt, block,
  section, partial,
}
use pushup.Tree.Walk.{Visited, node, visit_with}

-- A tree laid out flat: where each node starts and where it ends.
pub data Step : Type 0 where
  enter : Visited → Step
  leave : Step

abbrev pub group : Visited → List Step → List Step
group v inner = enter v ∷ inner ++ leave ∷ []

unfoldable mutual
  pub steps : Node → List Step
  steps (element t start_tag_nodes children pos closing) =
      group (node (element t start_tag_nodes children pos closing))
        (steps_all start_tag_nodes ++ steps_all children)
  steps (if_stmt cond then_block else_alt) = group (node (if_stmt cond then_block else_alt)) (
      group (node (go_str_expr cond)) []
      ++ (group (node (block then_block)) (steps_all then_block) ++ steps_alt else_alt))
  steps (for_stmt clause body) =
      group (node (for_stmt clause body))
        (group (node (go_code clause)) [] ++ group (node (block body)) (steps_all body))
  steps (block body) = group (node (block body)) (steps_all body)
  steps (section name pos body) =
      group (node (section name pos body)) (group (node (block body)) (steps_all body))
  steps (partial name pos body) =
      group (node (partial name pos body)) (group (node (block body)) (steps_all body))
  steps e = group (node e) []

  pub steps_all : Nodes → List Step
  steps_all nil = []
  steps_all (cons e es) = steps e ++ steps_all es

  pub steps_alt : Alt → List Step
  steps_alt no_alt = []
  steps_alt (alt e) = steps e

unfoldable pub steps_list : List Node → List Step
unfolding steps
steps_list [] = []
steps_list (e ∷ es) = steps e ++ steps_list es

module _ {S : Type 0} (f : S → Option Visited → Bool × S) where
  -- The callback on the steps from first to last, with the number of nodes that it is inside of since it
  -- returned false: it is called for a start or an end only outside of these.
  unfoldable pub run : S → ℕ → List Step → S
  run s k [] = s
  run s zero (enter v ∷ es) =
      let (goes_on, s') = f s (some v) in
      let inside = run s' zero es in
      let behind = run s' (suc zero) es in if goes_on then inside else behind
  run s zero (leave ∷ es) = run (f s none).1 zero es
  run s (suc k) (enter v ∷ es) = run s (suc (suc k)) es
  run s (suc k) (leave ∷ es) = run s k es

  -- Steps that are passed over, and steps that do what a function does.
  pub Skips : List Step → Type 0
  Skips inner = (s : S) (k : ℕ) (es : List Step) → run s (suc k) (inner ++ es) ≡ run s (suc k) es

  unfoldable pub Does : (S → S) → List Step → Type 0
  Does g inner = (s : S) (es : List Step) → run s zero (inner ++ es) ≡ run (g s) zero es

  pub Skips-append : (a b : List Step) → Skips a → Skips b → Skips (a ++ b)
  unfolding Skips
  Skips-append a b h h' s k es =
      ap (run s (suc k)) (append_assoc a b es) ∙ h s k (b ++ es) ∙ h' s k es

  pub Skips-group : (v : Visited) (inner : List Step) → Skips inner → Skips (group v inner)
  unfolding Skips run
  Skips-group v inner h s k es =
      ap (run s (suc (suc k))) (append_assoc inner (leave ∷ []) es) ∙ h s (suc k) (leave ∷ es)

  pub Does-append :
      (g h : S → S) (a b : List Step) → Does g a → Does h b → Does (λ s. h (g s)) (a ++ b)
  unfolding Does
  Does-append g h a b d d' s es =
      ap (run s zero) (append_assoc a b es) ∙ d s (b ++ es) ∙ d' (g s) es

  pub Does-group :
      (g : S → S) (v : Visited) (inner : List Step)
      → Skips inner
      → Does g inner
      → Does (λ s. visit_with f g s v) (group v inner)
  unfolding Skips Does run visit_with
  Does-group g v inner h d s es = by_test (f s (some v))
    where
      by_test :
          (r : Bool × S)
          → (if r.0
              then run r.1 zero ((inner ++ leave ∷ []) ++ es)
              else run r.1 (suc zero) ((inner ++ leave ∷ []) ++ es))
            ≡ run (if r.0 then (f (g r.1) none).1 else r.1) zero es
      by_test (true, s') = ap (run s' zero) (append_assoc inner (leave ∷ []) es) ∙ d s' (leave ∷ es)
      by_test (false, s') =
          ap (run s' (suc zero)) (append_assoc inner (leave ∷ []) es) ∙ h s' zero (leave ∷ es)

  pub Skips-nil : Skips []
  unfolding Skips
  Skips-nil s k es = refl

  pub Does-nil : Does (λ s. s) []
  unfolding Does
  Does-nil s es = refl
