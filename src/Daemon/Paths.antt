-- ===== src/Daemon/Paths.antt =====
-- Where the files of a daemon lie (caterm/src/session_manager/daemon_state.rs), with the methods of
-- `std::path::Path` on the text of a path. 47 is the slash and 46 the dot.
use caterm.Prelude.{
  ◌&&◌, ◌||◌, Option, none, some, map_opt, unwrap_or, [], ◌∷◌, ◌++◌, is_empty, ◌==◌, if◌then◌else◌,
}
use caterm.Text.{Text, codes, text_eq, ends_with}

abbrev pub reverse_onto : Text → Text → Text
reverse_onto [] acc = acc
reverse_onto (c ∷ s) acc = reverse_onto s (c ∷ acc)

-- A reversed path without the slashes and the lone dots at its end.
abbrev pub drop_end : Text → Text
drop_end [] = []
drop_end (c ∷ []) = if c == 47 then [] else c ∷ []
drop_end (c ∷ d ∷ s) =
    let rest = drop_end (d ∷ s) in if c == 47 || (c == 46 && d == 47) then rest else c ∷ d ∷ s

-- The last component of a reversed path, still reversed, and what stands in front of it.
abbrev last_part : Text → Text × Text
last_part [] = ([], [])
last_part (c ∷ s) =
    let (part, front) = last_part s in if c == 47 then ([], c ∷ s) else (c ∷ part, front)

-- `path.file_name()`
unfoldable pub file_name : Text → Option Text
file_name path =
    let (part, front) = last_part (drop_end (reverse_onto path [])) in
    let name = reverse_onto part [] in
    if is_empty name || (text_eq name (codes ".") || text_eq name (codes ".."))
    then none
    else some name

-- What a new file name is put behind: the parent directory, or the whole path if it has no file name.
unfoldable pub directory : Text → Text
directory path =
    let (part, front) = last_part (drop_end (reverse_onto path [])) in
    let name = reverse_onto part [] in
    if is_empty name || (text_eq name (codes ".") || text_eq name (codes ".."))
    then path
    else reverse_onto front []

-- `path.parent()`, as it is printed
abbrev pub parent : Text → Text
parent path =
    let front = directory path in
    if text_eq front (codes "/") then front else reverse_onto (drop_end (reverse_onto front [])) []

-- `path.with_file_name(name)`
unfoldable pub with_file_name : Text → Text → Text
unfolding directory
with_file_name path name =
    let front = directory path in
    if is_empty front || ends_with (codes "/") front
    then front ++ name
    else front ++ (codes "/" ++ name)

unfoldable pub metadata_path : Text → Text
unfolding file_name with_file_name
metadata_path socket_path = with_file_name socket_path (
    unwrap_or (map_opt (λ name. name ++ codes ".meta.json") (file_name socket_path))
      (codes "caterm.meta.json"))

unfoldable pub state_path : Text → Text
unfolding file_name with_file_name
state_path socket_path = with_file_name socket_path (
    unwrap_or (map_opt (λ name. name ++ codes ".state.json") (file_name socket_path))
      (codes "caterm.state.json"))
