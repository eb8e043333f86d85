-- ===== src/Project/Tests/PageCode.antt =====
-- A run of `genCodePage` on a page with a partial.
use pushup.Base.{
  ℕ, ◌≡◌, refl, Bool, true, false, Option, none, some, List, [], ◌∷◌, ◌++◌, ◌-◌, leb, codes, equal,
  has_prefix, split, cons_first, join, ext, later_ext, has_slash,
}
use pushup.Tree.Node.{Node, nil, cons, literal, partial}
use pushup.Page.Defs.{
  urlpath, segments, collect, collect_list, Page, made, first_pass, new_pass, finish, visit,
  new_page_from_tree,
}
use pushup.Page.Partials.{paths_of}
use pushup.Runtime.Route.{route_page, route_partial}
use pushup.Gen.Typenames.{typename_from_path, name_loop, replace_dollar}
use pushup.Gen.Defs.{node_line_no, gen_node, generate}
use pushup.Gen.Inline.{
  prepend, proceed, one_behind, prints_of, in_scope, enter, set_scope, gen_inline, gen_node_partial,
}
use pushup.Project.Filepath.{
  clean_step, clean_loop, elements, path_of, clean, climb, rel_loop, or_dot, rel_roots, rel,
}
use pushup.Project.Files.{
  ProjectFile, relpath, without_ext, route_for_page, route_for_partial, generated_typename,
  generated_typename_partial,
}
use pushup.Project.PageCode.{
  Piece, init_func, PageCode, handler_code, sections_code, main_of, partial_of, both, with_init,
  main_page, partial_page, partial_pages, gen_code_page,
}
use pushup.Project.Inits.{gen_code_page-inits}

abbrev row : Node
row =
    partial (codes "row") (record { start = 0; end = 1 })
      (cons (literal (codes "x") (record { start = 0; end = 1 })) nil)

abbrev page : Page
page = record {
  layout = codes "default";
  imports = [];
  handler = none;
  nodes = row ∷ [];
  sections = [];
  partials = collect_list (row ∷ []) [];
}

abbrev page_file : ProjectFile
page_file = record { path = codes "users.up"; project_files_subdir = [] }

abbrev lower : ℕ → Bool
lower c = leb 97 c

abbrev digit : ℕ → Bool
digit c = false

abbrev to_upper : ℕ → ℕ
to_upper c = c - 32

abbrev code : Option PageCode
code =
    gen_code_page (λ s. s) [] (λ p e. true) lower digit to_upper (λ s. s) (λ s. s) false (codes "x")
      page_file page

abbrev code_or_none : Option PageCode → PageCode
code_or_none none = record { inits = []; body = [] }
code_or_none (some g) = g

page_made : new_page_from_tree (record { nodes = row ∷ [] }) ≡ made page
unfolding new_page_from_tree first_pass new_pass finish collect_list visit
page_made = refl

gen_code_page-inits_example :
    (front : List Piece) × ((code_or_none code).body
      ≡ front
        ++ init_func
            (λ s. s)
            (record {
              typename = codes "UsersPage";
              route = route_for_page (codes "users.up");
              role = route_page;
            }
              ∷ record {
                typename = codes "UsersRowPartial";
                route = route_for_partial (codes "users.up") (codes "row");
                role = route_partial;
              }
              ∷ []))
unfolding gen_code_page main_page partial_page partial_pages main_of partial_of both with_init
    relpath rel rel_roots rel_loop climb or_dot clean elements path_of clean_loop clean_step split
    cons_first join equal has_prefix generated_typename generated_typename_partial
    typename_from_path name_loop replace_dollar without_ext ext later_ext has_slash urlpath segments
    collect_list collect gen_node_partial gen_inline prepend proceed one_behind prints_of in_scope
    enter set_scope node_line_no generate gen_node handler_code sections_code paths_of
gen_code_page-inits_example =
    gen_code_page-inits (λ s. s) [] (λ p e. true) lower digit to_upper (λ s. s) (λ s. s) false
      (codes "x") (record { nodes = row ∷ [] }) page_file page (codes "users.up")
      (code_or_none code) page_made refl refl
