-- ===== src/Prelude/FilePath.antt =====
-- Go's path/filepath on Unix: `Clean`, `Join`, `Dir` and `IsAbs`, on the parts between slashes.
use Prim.Native.Char.{code}
use cognitiveosd.Prelude.Text.{join, split}
use cognitiveosd.Prelude.Tests.{eqb, if◌then◌else◌}
use Prim.Native.String.{String, ◌++◌}
use mathlib.Core.Path.{◌≡◌, refl}
use mathlib.Core.Bool.{Bool, true, false, ◌||◌}
use mathlib.Core.List.{List, [], ◌∷◌, reverse}
use text.Mathlib.Text.{◌==◌}

-- `filepath.IsAbs`
abbrev pub is_abs : String → Bool
is_abs String.[] = false
is_abs (String.◌∷◌ c s) = eqb (code c) b'/'

-- `..` takes the last part away; at the root it is dropped, and before any part it stays.
abbrev pub pop : Bool → List String → List String
pop true [] = []
pop false [] = ".." ∷ []
pop rooted (top ∷ stack) = if top == ".." then ".." ∷ top ∷ stack else stack

-- One part of a path, onto the parts so far, the last one first.
abbrev pub resolve : Bool → List String → String → List String
resolve rooted stack part =
    if part == "" || part == "."
    then stack
    else if part == ".."
    then pop rooted stack
    else part ∷ stack

unfoldable pub resolve_all : Bool → List String → List String → List String
resolve_all rooted stack [] = stack
resolve_all rooted stack (part ∷ parts) = resolve_all rooted (resolve rooted stack part) parts

abbrev pub assemble : Bool → List String → String
assemble true parts = "/" ++ join "/" parts
assemble false [] = "."
assemble false (p ∷ parts) = join "/" (p ∷ parts)

-- `filepath.Clean`
unfoldable pub clean : String → String
unfolding resolve_all split
clean path = assemble (is_abs path) (reverse (resolve_all (is_abs path) [] (split b'/' path)))

abbrev non_empty : List String → List String
non_empty [] = []
non_empty (s ∷ ss) = if s == "" then non_empty ss else s ∷ non_empty ss

abbrev clean_join : List String → String
clean_join [] = ""
clean_join (s ∷ ss) = clean (join "/" (s ∷ ss))

-- `filepath.Join`: empty elements are left out.
unfoldable pub path_join : List String → String
unfolding clean
path_join elems = clean_join (non_empty elems)

abbrev without_last : List String → List String
without_last [] = []
without_last (s ∷ []) = []
without_last (s ∷ t ∷ ss) = s ∷ without_last (t ∷ ss)

-- `filepath.Dir`
unfoldable pub dir : String → String
unfolding resolve_all split
dir path =
    assemble (is_abs path) (reverse (resolve_all (is_abs path) [] (without_last (split b'/' path))))

path_tests :
    (path_join ("/cognitiveos/run" ∷ ".." ∷ "audit" ∷ []) ≡ "/cognitiveos/audit")
    × (path_join ("" ∷ "a" ∷ "b/" ∷ []) ≡ "a/b")
    × (dir "/a/b/c.sock" ≡ "/a/b")
    × (path_join ("/a" ∷ "../../x" ∷ []) ≡ "/x")
    × (dir "c" ≡ ".")
unfolding path_join dir
path_tests = (refl, refl, refl, refl, refl)
