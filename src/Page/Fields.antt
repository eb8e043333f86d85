-- ===== src/Page/Fields.antt =====
-- codegen.go: the fields of the page that `newPageFromTree` makes.
use pushup.Base.{
  ◌≡◌, refl, sym, ap, ◌∙◌, Bool, true, false, ◌||◌, Option, none, some, List, [], ◌∷◌, ◌++◌,
  if◌then◌else◌, append-nil, append_assoc, Bytes, codes, equal, arith,
}
use pushup.Tree.Node.{
  Node, Nodes, go_code, section, import_decl, layout, GoCode, GoCodeContext, inline_go_code,
  handler_go_code, ImportDecl,
}
use pushup.Page.Defs.{Pass, keep, set_layout, set_handler, visit_code, visit}
use pushup.Page.Compact.{all_of, visit_all}

abbrev pub imports_of : Node → List ImportDecl
imports_of (import_decl decl pos) = decl ∷ []
imports_of e = []

abbrev pub handler_code : GoCodeContext → GoCode → List GoCode
handler_code handler_go_code e = e ∷ []
handler_code inline_go_code e = []

abbrev pub handlers_of : Node → List GoCode
handlers_of (go_code e) = handler_code e.context e
handlers_of e = []

abbrev pub layouts_of : Node → List Bytes
layouts_of (layout name pos) = name ∷ []
layouts_of e = []

abbrev pub sections_of : Node → List (Bytes × Nodes)
sections_of (section name pos body) = (name, body) ∷ []
sections_of e = []

-- The newest of the new entries first, and then the old ones.
abbrev pub push_all {ℓ} : {A : Type ℓ} → List A → List A → List A
push_all [] old = old
push_all (x ∷ xs) old = push_all xs (x ∷ old)

abbrev pub layout_name : Bytes → Bytes
layout_name name = if equal name (codes "!") then [] else name

abbrev pub first_or {ℓ} : {A : Type ℓ} → Option A → List A → Option A
first_or (some x) xs = some x
first_or none [] = none
first_or none (x ∷ xs) = some x

abbrev pub layout_or : Bool → Bytes → List Bytes → Bytes
layout_or true old names = old
layout_or false old [] = old
layout_or false old (name ∷ names) = layout_name name

abbrev is_any {ℓ} : {A : Type ℓ} → List A → Bool
is_any [] = false
is_any (x ∷ xs) = true

-- What some nodes change, that contribute these imports, handlers, layouts and sections.
abbrev pub HasTaken :
    List ImportDecl → List GoCode → List Bytes → List (Bytes × Nodes) → Pass → Pass → Type 0
HasTaken is hs ls ss s s' =
    (s'.imports ≡ s.imports ++ is)
    × (s'.handler ≡ first_or s.handler hs)
    × (s'.layout ≡ layout_or s.layout_set s.layout ls)
    × (s'.layout_set ≡ (s.layout_set || is_any ls))
    × (s'.sections ≡ push_all ss s.sections)

first_or-nil : {A : Type 0} (o : Option A) → o ≡ first_or o []
first_or-nil none = refl
first_or-nil (some x) = refl

layout_or-nil : (t : Bool) (old : Bytes) → old ≡ layout_or t old []
layout_or-nil true old = refl
layout_or-nil false old = refl

or_false : (t : Bool) → t ≡ (t || false)
or_false true = refl
or_false false = refl

keep-HasTaken : (e : Node) (s : Pass) → HasTaken [] [] [] [] s (keep e s)
keep-HasTaken e s = (
  sym (append-nil s.imports),
  first_or-nil s.handler,
  layout_or-nil s.layout_set s.layout,
  or_false s.layout_set,
  refl,
)

set_layout-HasTaken :
    (name : Bytes) (t : Bool) (s : Pass)
    → s.layout_set ≡ t
    → HasTaken [] [] (name ∷ []) [] s (set_layout name t s)
unfolding set_layout
set_layout-HasTaken name true s h =
    (sym (append-nil s.imports), first_or-nil s.handler, ground (arith, h), ground (arith, h), refl)
set_layout-HasTaken name false s h =
    (sym (append-nil s.imports), first_or-nil s.handler, ground (arith, h), ground (arith, h), refl)

set_handler-HasTaken :
    (e : GoCode) (h : Option GoCode) (s : Pass)
    → s.handler ≡ h
    → HasTaken [] (e ∷ []) [] [] s (set_handler e h s)
unfolding set_handler
set_handler-HasTaken e none s h = (
  sym (append-nil s.imports),
  ground (arith, h),
  layout_or-nil s.layout_set s.layout,
  or_false s.layout_set,
  refl,
)
set_handler-HasTaken e (some g) s h = (
  sym (append-nil s.imports),
  ground (arith, h),
  layout_or-nil s.layout_set s.layout,
  or_false s.layout_set,
  refl,
)

visit_code-HasTaken :
    (c : GoCodeContext) (e : GoCode) (s : Pass)
    → HasTaken [] (handler_code c e) [] [] s (visit_code c e s)
unfolding visit_code
visit_code-HasTaken handler_go_code e s = set_handler-HasTaken e s.handler s refl
visit_code-HasTaken inline_go_code e s = keep-HasTaken (go_code e) s

visit-HasTaken :
    (e : Node) (s : Pass)
    → HasTaken (imports_of e) (handlers_of e) (layouts_of e) (sections_of e) s (visit e s)
unfolding visit
visit-HasTaken (import_decl decl pos) s =
    (refl, first_or-nil s.handler, layout_or-nil s.layout_set s.layout, or_false s.layout_set, refl)
visit-HasTaken (section name pos body) s = (
  sym (append-nil s.imports),
  first_or-nil s.handler,
  layout_or-nil s.layout_set s.layout,
  or_false s.layout_set,
  refl,
)
visit-HasTaken (go_code e) s = visit_code-HasTaken e.context e s
visit-HasTaken (layout name pos) s = set_layout-HasTaken name s.layout_set s refl
visit-HasTaken e s = keep-HasTaken e s

first_or-append :
    {A : Type 0} (o : Option A) (xs ys : List A)
    → first_or (first_or o xs) ys ≡ first_or o (xs ++ ys)
first_or-append (some x) xs ys = refl
first_or-append none [] ys = refl
first_or-append none (x ∷ xs) ys = refl

layout_or-append :
    (t : Bool) (old : Bytes) (xs ys : List Bytes)
    → layout_or (t || is_any xs) (layout_or t old xs) ys ≡ layout_or t old (xs ++ ys)
layout_or-append true old xs ys = refl
layout_or-append false old [] ys = refl
layout_or-append false old (x ∷ xs) ys = refl

is_any-append :
    {A : Type 0} (t : Bool) (xs ys : List A)
    → ((t || is_any xs) || is_any ys) ≡ (t || is_any (xs ++ ys))
is_any-append true xs ys = refl
is_any-append false [] ys = refl
is_any-append false (x ∷ xs) ys = refl

push_all-append :
    {A : Type 0} (xs ys old : List A) → push_all ys (push_all xs old) ≡ push_all (xs ++ ys) old
push_all-append [] ys old = refl
push_all-append (x ∷ xs) ys old = push_all-append xs ys (x ∷ old)

HasTaken-append :
    (is is' : List ImportDecl) (hs hs' : List GoCode) (ls ls' : List Bytes)
    (ss ss' : List (Bytes × Nodes)) (a b c : Pass)
    → HasTaken is hs ls ss a b
    → HasTaken is' hs' ls' ss' b c
    → HasTaken (is ++ is') (hs ++ hs') (ls ++ ls') (ss ++ ss') a c
HasTaken-append is is' hs hs' ls ls' ss ss' a b c (i, h, l, t, s) (i', h', l', t', s') = (
  i' ∙ (ap (λ x. x ++ is') i ∙ append_assoc a.imports is is'),
  h' ∙ (ap (λ x. first_or x hs') h ∙ first_or-append a.handler hs hs'),
  l'
      ∙ (ap (λ x. layout_or x b.layout ls') t
          ∙ (ap (λ x. layout_or (a.layout_set || is_any ls) x ls') l
              ∙ layout_or-append a.layout_set a.layout ls ls')),
  t' ∙ (ap (λ x. x || is_any ls') t ∙ is_any-append a.layout_set ls ls'),
  s' ∙ (ap (push_all ss') s ∙ push_all-append ss ss' a.sections),
)

pub visit_all-HasTaken :
    (es : List Node) (s : Pass)
    → HasTaken
        (all_of imports_of es)
        (all_of handlers_of es)
        (all_of layouts_of es)
        (all_of sections_of es)
        s
        (visit_all es s)
visit_all-HasTaken [] s = (
  sym (append-nil s.imports),
  first_or-nil s.handler,
  layout_or-nil s.layout_set s.layout,
  or_false s.layout_set,
  refl,
)
visit_all-HasTaken (e ∷ es) s =
    HasTaken-append (imports_of e) (all_of imports_of es) (handlers_of e) (all_of handlers_of es)
      (layouts_of e) (all_of layouts_of es) (sections_of e) (all_of sections_of es) s (visit e s)
      (visit_all es (visit e s)) (visit-HasTaken e s) (visit_all-HasTaken es (visit e s))
