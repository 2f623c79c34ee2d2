-- ===== src/Fs/Paths.antt =====
-- The methods of `std::path::Path` on the name of a file.
use mathlib.Core.List.{append-nil, append_assoc}
use mitos_pkg.Prelude.{
  Bool, false, ◌≡◌, ◌++◌, sym, arith, contains, String, string_eq, [], ◌∷◌, Option, none, some,
  ◌==◌, if◌then◌else◌,
}
use mitos_pkg.Error.{FilePath}

-- `Path::extension` of the last component: what is behind its last dot, unless that begins the name
abbrev rsplit_dot : String → Option (String × String)
rsplit_dot String.[] = none
rsplit_dot (String.◌∷◌ c s) = elim (rsplit_dot s) [
  | some (a, b) ↦ some (String.◌∷◌ c a, b)
  | none ↦ if String.◌∷◌ c String.[] == "." then some ("", s) else none
]

abbrev pub extension_of : String → Option String
extension_of name = elim (rsplit_dot name) [
  | none ↦ none
  | some (stem, ext) ↦ if stem == "" then none else some ext
]

-- `Path::file_stem` of a component
abbrev pub stem_of : String → String
stem_of name = elim (rsplit_dot name) [
  | none ↦ name
  | some (stem, ext) ↦ if stem == "" then name else stem
]

abbrev pub extension : FilePath → Option String
extension [] = none
extension (x ∷ []) = extension_of x
extension (x ∷ y ∷ path) = extension (y ∷ path)

-- the text of a path: empty components and `.` are dropped
abbrev keep_component : String → FilePath → FilePath
keep_component c path = if c == "" then path else if c == "." then path else c ∷ path

abbrev split_slash : String → String × FilePath
split_slash String.[] = ("", [])
split_slash (String.◌∷◌ c s) =
    let (component, later) = split_slash s in
    if String.◌∷◌ c String.[] == "/"
    then ("", keep_component component later)
    else (String.◌∷◌ c component, later)

abbrev pub components : String → FilePath
components s = let (component, later) = split_slash s in keep_component component later

abbrev is_absolute : String → Bool
is_absolute String.[] = false
is_absolute (String.◌∷◌ c s) = String.◌∷◌ c String.[] == "/"

abbrev pub up : FilePath → FilePath
up [] = []
up (x ∷ []) = []
up (x ∷ y ∷ path) = x ∷ up (y ∷ path)

-- `Path::join` with a relative path, and then what the system does with `..`: it leaves a directory.
-- No directory on the way is a link.
unfoldable pub join : FilePath → FilePath → FilePath
join dir [] = dir
join dir (c ∷ rel) =
    let above = join (up dir) rel in
    let below = join (dir ++ (c ∷ [])) rel in if c == ".." then above else below

-- `Path::join` with a text: an absolute one replaces the path
unfoldable pub join_text : FilePath → String → FilePath
unfolding join
join_text dir s = join (if is_absolute s then [] else dir) (components s)

pub join_plain : (dir rel : FilePath) → contains rel ".." ≡ false → join dir rel ≡ dir ++ rel
unfolding join
join_plain dir [] h = sym (append-nil dir)
join_plain dir (c ∷ rel) h =
    ground (arith, join_plain (dir ++ (c ∷ [])) rel, append_assoc dir (c ∷ []) rel)
