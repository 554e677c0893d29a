-- ===== src/Oci/Inside.antt =====
-- oci/fetch/internal/disk_layer_writer.go: where the entries of a layer are written to.
use step_runner.Common.{
  if◌then◌else◌, String, ◌≡◌, Bool, true, not, ◌||◌, List, [], ◌∷◌, ◌++◌, all, str_eq, append,
  has_prefix, Result, split, join, go_up, elements,
}
use step_runner.Oci.Layers.{Disk}

-- An element that is kept of a path, and one that is not the name of the directory above.
abbrev is_kept : String → Bool
is_kept p = not (str_eq p "" || str_eq p ".")

abbrev pub is_down : String → Bool
is_down p = not (str_eq p "..")

kept : List String → List String
kept [] = []
kept (p ∷ ps) = let rest = kept ps in if is_kept p then p ∷ rest else rest

-- What an element leaves on the stack of Clean, and what more of them leave.
abbrev next_stack : List String → String → List String
next_stack stack p =
    if str_eq p "" || str_eq p "."
    then stack
    else if str_eq p ".."
    then go_up true stack
    else p ∷ stack

stack_of : List String → List String → List String
stack_of stack [] = stack
stack_of stack (p ∷ ps) = stack_of (next_stack stack p) ps

-- The path is that of the directory with more elements behind it, none of which is the directory above.
abbrev pub IsInside : String → String → Type 0
IsInside dir path =
    (rest : List String) × (all is_down rest ≡ true)
    × (path ≡ append "/" (join "/" (elements dir ++ rest)))

abbrev pub AllInside : String → List String → Type 0
AllInside dir [] = Unit {0}
AllInside dir (path ∷ paths) = IsInside dir path × AllInside dir paths

-- No element of a name that is sanitised is the directory above.
abbrev pub IsSafe : {W : Type 0} → Disk W → Type 0
IsSafe disk = (name : String) → all is_down (split b'/' (disk.sanitize_path name)) ≡ true

-- A call that also writes down the path that it is given.
abbrev note :
    {W A : Type 0} → String → (W → Result A × W) → List String × W → Result A × (List String × W)
note path call (paths, w) = let r = call w in (r.0, (path ∷ paths, r.1))

-- The same disk, which writes down the path of every call of package os.
abbrev pub recording : {W : Type 0} → Disk W → Disk (List String × W)
recording disk = record {
  sanitize_path = disk.sanitize_path;
  mkdir_all = λ path. note path (disk.mkdir_all path);
  open_file = λ path. note path (disk.open_file path);
  copy_to = λ path content. note path (disk.copy_to path content);
  close_file = λ path. note path (disk.close_file path);
}

module _ {W : Type 0} (disk : Disk W) (safe : IsSafe disk) (dir : String)
    (rooted : has_prefix dir "/" ≡ true) where
  abbrev Keeps : {A : Type 0} → List String × W → Result A × (List String × W) → Type 0
  Keeps s r = AllInside dir s.0 → AllInside dir r.1.0
