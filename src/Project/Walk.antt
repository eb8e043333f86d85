-- ===== src/Project/Walk.antt =====
-- main.go: fs.WalkDir of `findProjectFiles` calls the callback on the files below a directory, in order.
use pushup.Base.{
  ◌≡◌, refl, sym, ap, ◌∙◌, Bool, true, false, Option, none, some, List, [], ◌∷◌, ◌++◌, Bytes, All,
  All-append, equal, has_prefix, join, split,
}
use pushup.Project.Filepath.{dot, elements, path_of, clean_loop, clean_step, join_paths}
use pushup.Project.Clean.{IsName}
use pushup.Project.Rel.{join-names, elements-join, join_paths-names}
use pushup.Project.Find.{
  Entry, Entries, file, folder, no_more, entry, name_of, Walked, walked, walk_panicked, go_on,
  walk_tree, walk_entries, walk_dir,
}

-- The files below a folder, each by the names on the way down to it.
unfoldable mutual
  pub below : List Bytes → Entry → List (List Bytes)
  below names (file n) = (names ++ n ∷ []) ∷ []
  below names (folder n es) = below_all (names ++ n ∷ []) es

  pub below_all : List Bytes → Entries → List (List Bytes)
  below_all names no_more = []
  below_all names (entry e es) = below names e ++ below_all names es

unfoldable mutual
  pub IsNamed : Entry → Type 0
  IsNamed (file n) = IsName n
  IsNamed (folder n es) = IsName n × IsNamedAll es

  pub IsNamedAll : Entries → Type 0
  IsNamedAll no_more = Unit
  IsNamedAll (entry e es) = IsNamed e × IsNamedAll es

abbrev pub path_to : List Bytes → Bytes
path_to [] = dot
path_to (n ∷ ns) = join b'/' (n ∷ ns)

join_paths-path_to :
    (names : List Bytes) (n : Bytes)
    → All IsName names
    → IsName n
    → join_paths (path_to names ∷ n ∷ []) ≡ path_to (names ++ n ∷ [])
unfolding path_of join elements has_prefix split clean_loop clean_step equal
join_paths-path_to [] n h k = join_paths-names dot n [] (k, tt)
join_paths-path_to (m ∷ ms) n h k =
    join_paths-names (join b'/' (m ∷ ms)) n [] (k, tt)
    ∙ ap (λ t. path_of t (elements (join b'/' (m ∷ ms)) ++ n ∷ [])) (join-names m ms h)
    ∙ ap (λ l. path_of false (l ++ n ∷ [])) (elements-join m ms h)

module _ {S : Type 0} (step : S → Bytes → S) where
  -- What a callback does for each file, one after the other.
  unfoldable pub fold_files : S → List (List Bytes) → S
  fold_files s [] = s
  fold_files s (ns ∷ fs) = fold_files (step s (path_to ns)) fs

  fold_files-append :
      (s : S) (fs gs : List (List Bytes))
      → fold_files s (fs ++ gs) ≡ fold_files (fold_files s fs) gs
  unfolding fold_files
  fold_files-append s [] gs = refl
  fold_files-append s (ns ∷ fs) gs = fold_files-append (step s (path_to ns)) fs gs

  -- A callback that passes over directories and returns no error.
  module _ (visit : S → Bytes → Option Bool → Walked S)
      (skips : (s : S) (path : Bytes) → visit s path (some true) ≡ walked none s)
      (takes : (s : S) (path : Bytes) → visit s path (some false) ≡ walked none (step s path)) where
    mutual
      unfolding walk_tree go_on below fold_files IsNamed

      walk_tree-below :
          (s : S) (names : List Bytes) (e : Entry)
          → All IsName names
          → IsNamed e
          → walk_tree visit s (join_paths (path_to names ∷ name_of e ∷ [])) e
            ≡ walked none (fold_files s (below names e))
      walk_tree-below s names (file n) h k =
          takes s (join_paths (path_to names ∷ n ∷ []))
          ∙ ap (λ p. walked none (step s p)) (join_paths-path_to names n h k)
      walk_tree-below s names (folder n es) h (k, l) =
          ap (λ p. go_on visit (λ s'. walk_entries visit s' p es) (visit s p (some true)))
            (join_paths-path_to names n h k)
          ∙ ap (go_on visit (λ s'. walk_entries visit s' (path_to (names ++ n ∷ [])) es))
              (skips s (path_to (names ++ n ∷ [])))
          ∙ walk_entries-below s (names ++ n ∷ []) es (All-append IsName names (n ∷ []) h (k, tt)) l

      pub walk_entries-below :
          (s : S) (names : List Bytes) (es : Entries)
          → All IsName names
          → IsNamedAll es
          → walk_entries visit s (path_to names) es
            ≡ walked none (fold_files s (below_all names es))
      walk_entries-below s names no_more h k = refl
      walk_entries-below s names (entry e es) h (k, l) =
          ap (go_on visit (λ s'. walk_entries visit s' (path_to names) es))
            (walk_tree-below s names e h k)
          ∙ walk_entries-below (fold_files s (below names e)) names es h l
          ∙ ap (walked none) (sym (fold_files-append s (below names e) (below_all names es)))

-- No error is returned.
abbrev pub HasNoError : {S : Type 0} → Walked S → Type 0
HasNoError (walked none s) = Unit
HasNoError (walked (some e) s) = ⊥
HasNoError walk_panicked = Unit

-- A callback that returns no error, whatever it is called with, ends no walk with one.
module _ {S : Type 0} (visit : S → Bytes → Option Bool → Walked S)
    (fine : (s : S) (path : Bytes) (is_dir : Option Bool) → HasNoError (visit s path is_dir)) where
  go_on-HasNoError :
      (rest : S → Walked S) (w : Walked S)
      → HasNoError w
      → ((s : S) → HasNoError (rest s))
      → HasNoError (go_on visit rest w)
  unfolding go_on
  go_on-HasNoError rest (walked none s) h k = k s
  go_on-HasNoError rest (walked (some e) s) h k = absurd h
  go_on-HasNoError rest walk_panicked h k = tt

  mutual
    unfolding walk_tree

    walk_tree-HasNoError :
        (s : S) (path : Bytes) (e : Entry) → HasNoError (walk_tree visit s path e)
    walk_tree-HasNoError s path (file n) = fine s path (some false)
    walk_tree-HasNoError s path (folder n es) =
        go_on-HasNoError (λ s'. walk_entries visit s' path es) (visit s path (some true))
          (fine s path (some true)) (λ s'. walk_entries-HasNoError s' path es)

    walk_entries-HasNoError :
        (s : S) (path : Bytes) (es : Entries) → HasNoError (walk_entries visit s path es)
    walk_entries-HasNoError s path no_more = tt
    walk_entries-HasNoError s path (entry e es) =
        go_on-HasNoError (λ s'. walk_entries visit s' path es)
          (walk_tree visit s (join_paths (path ∷ name_of e ∷ [])) e)
          (walk_tree-HasNoError s (join_paths (path ∷ name_of e ∷ [])) e)
          (λ s'. walk_entries-HasNoError s' path es)

  pub walk_dir-HasNoError : (s : S) (root : Option Entry) → HasNoError (walk_dir visit s root)
  unfolding walk_dir
  walk_dir-HasNoError s none = fine s dot none
  walk_dir-HasNoError s (some root) = walk_tree-HasNoError s dot root

-- The names down to a file: there is one, and each is a name.
unfoldable pub IsFile : List Bytes → Type 0
IsFile [] = ⊥
IsFile (n ∷ ns) = All IsName (n ∷ ns)

IsFile-append :
    (names : List Bytes) (n : Bytes) → All IsName names → IsName n → IsFile (names ++ n ∷ [])
unfolding IsFile
IsFile-append [] n h k = (k, tt)
IsFile-append (m ∷ names) n h k = All-append IsName (m ∷ names) (n ∷ []) h (k, tt)

mutual
  unfolding below IsNamed

  below-IsFile :
      (names : List Bytes) (e : Entry) → All IsName names → IsNamed e → All IsFile (below names e)
  below-IsFile names (file n) h k = (IsFile-append names n h k, tt)
  below-IsFile names (folder n es) h (k, l) =
      below_all-IsFile (names ++ n ∷ []) es (All-append IsName names (n ∷ []) h (k, tt)) l

  pub below_all-IsFile :
      (names : List Bytes) (es : Entries)
      → All IsName names
      → IsNamedAll es
      → All IsFile (below_all names es)
  below_all-IsFile names no_more h k = tt
  below_all-IsFile names (entry e es) h (k, l) =
      All-append IsFile (below names e) (below_all names es) (below-IsFile names e h k)
        (below_all-IsFile names es h l)
