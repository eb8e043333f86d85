-- ===== src/Reload/Tests.antt =====
-- Runs of the reloader's functions.
use pushup.Base.{
  ext, later_ext, has_slash, ℕ, ◌≤◌, ◌≡◌, refl, true, false, not, ◌&&◌, ◌||◌, ◌==◌, length, some,
  [], ◌∷◌, ◌++◌, codes, has_prefix, has_suffix, equal, arith,
}
use pushup.Reload.Filename.{reloadable_filename, reloadable_ext, reloadable_filename_lem}
use pushup.Reload.Debounce.{Event, Watch, receive, Run, pass, event, here, next, new_watch}
use pushup.Reload.Armed.{IsWellFormed}
use pushup.Reload.Calls.{Run-IsWellFormed, receive-calls}
use pushup.Reload.Quiet.{receive-quiet}

swap_file : reloadable_filename (codes "app/.a.up.swp") ≡ false
unfolding reloadable_filename reloadable_ext ext later_ext has_slash has_prefix has_suffix equal
swap_file = refl

-- An Emacs autosave file is not left out.
autosave_file : reloadable_filename (codes "app/#a.up#") ≡ true
unfolding reloadable_filename reloadable_ext ext later_ext has_slash has_prefix has_suffix equal
autosave_file = refl

abbrev written_file : Event
written_file = record { name = codes "a.up"; create = false; write = true }

Run-IsWellFormed_example : IsWellFormed 3 (receive 3 written_file new_watch)
Run-IsWellFormed_example = Run-IsWellFormed 3 (next here (event written_file new_watch refl))

receive-calls_example :
    (t : Watch) × (e : Event) × Run 3 (receive 3 written_file new_watch) t
    × (t.calls ≡ (receive 3 written_file new_watch).calls ++ (3, e) ∷ [])
    × (e.name ≡ codes "a.up")
receive-calls_example = receive-calls 3 written_file here refl

receive-quiet_example :
    (id : ℕ) × ((receive 3 written_file new_watch).timers (codes "a.up") ≡ some id)
    × ((d : ℕ) × (((receive 3 written_file new_watch).store id).due ≡ some d) × (3 ≤ d))
unfolding receive
receive-quiet_example =
    receive-quiet 3 written_file here refl (next here (pass (receive 3 written_file new_watch)))
      (omega arith)

reloadable_filename_lem_example :
    reloadable_filename (codes "app/a.up~")
    ≡ not (
        (length (ext (codes "app/a.up~")) == 4
          && has_prefix (ext (codes "app/a.up~")) (codes ".sw"))
        || has_suffix (ext (codes "app/a.up~")) (codes "~"))
reloadable_filename_lem_example = reloadable_filename_lem (codes "app/a.up~")
