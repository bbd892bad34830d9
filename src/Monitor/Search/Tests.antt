-- ===== src/Monitor/Search/Tests.antt =====
-- A directory with two files and a debug.log, and one with a subdirectory at its end.
use sem.Base.{◌≡◌, refl, true, false, some, [], ◌∷◌, map, arith, length}
use sem.Text.{codes, equal}
use sem.Monitor.Events.{basename_from}
use sem.Monitor.Search.{
  Listing, no_more, gone, folder, regular, search_entries, search_files_in_dir, own_files, is_flat,
  search_files_in_dir-own_files, search_entries_last_folder,
}

abbrev plain : Listing
plain = regular (codes "a") true (
    folder (codes ".") no_more (
      regular (codes "debug.log") true
        (regular (codes "x") false (gone (codes "y") (regular (codes "b") true no_more)))))

plain_found : own_files (codes "/d") plain ≡ codes "/d/a" ∷ codes "/d/b" ∷ []
unfolding own_files equal basename_from
plain_found = refl

search_files_in_dir-own_files_example :
    search_files_in_dir (codes "/d") plain []
    ≡ (map some (own_files (codes "/d") plain), length (own_files (codes "/d") plain))
unfolding is_flat equal
search_files_in_dir-own_files_example = search_files_in_dir-own_files (codes "/d") plain refl

abbrev one_file : Listing
one_file = regular (codes "c") true no_more

-- Two files were found before the directory /d/s is, and one place is left.
search_entries_last_folder_example :
    search_entries
      (codes "/d")
      (folder (codes "s") one_file no_more)
      2
      (some (codes "/d/a") ∷ some (codes "/d/b") ∷ [])
    ≡ (some (codes "/d/s/c") ∷ [], 2)
unfolding is_flat equal own_files basename_from
search_entries_last_folder_example =
    search_entries_last_folder (codes "/d") (codes "s") one_file 2
      (some (codes "/d/a") ∷ some (codes "/d/b") ∷ []) refl refl (omega arith)
