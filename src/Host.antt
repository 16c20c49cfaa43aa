-- ===== src/Host.antt =====
-- What the managers use of the operating system: files by their paths, and the answers of the
-- programs that they start. Directories are not modelled; removing a file that is there succeeds.
use Prim.Native.Char.{code}
use Prim.Native.String
use swift_route.Prelude.{ℕ, String, Bool, Option, none, some, ◌==◌, if◌then◌else◌}
use swift_route.Prelude.Dict.{Dict}

-- The files that exist, with their contents.
abbrev pub Files : Type 0
Files = Dict String

-- How a started program ends: the program is not there, it ends with an error and a text on stderr,
-- or it ends well.
pub data Run : Type 0 where
  not_found : Run
  exit_error : String → Run
  exit_ok : Run

pub record Host : Type 0 where
  -- Whether `mkdir` and `write_text` of a path return; else they raise.
  pub writable : String → Bool
  -- wg-quick, with its command and a path.
  pub wg_quick : String → String → Run
  -- tempfile.gettempdir()
  pub temp_dir : String
  -- shutil.which("firecracker")
  pub which_firecracker : Option String
  -- The binary beside the project, if it exists.
  pub project_bin : Option String
  -- subprocess.Popen of a binary with a socket and a configuration: the pid, or FileNotFoundError.
  pub popen : String → String → String → Option ℕ

infixr 65 ◌++◌
abbrev pub ◌++◌ : String → String → String
s ++ t = String.◌++◌ s t

-- The part of a path before its last slash, if it has one.
abbrev pub parent_of : String → Option String
parent_of String.[] = none
parent_of (String.◌∷◌ c s) = elim (parent_of s) [
  | some p ↦ some (String.◌∷◌ c p)
  | none ↦ if code c == b'/' then some "" else none
]

-- Path(path).parent / name
abbrev pub sibling : String → String → String
sibling path name = elim (parent_of path) [ some p ↦ p ++ "/" ++ name | none ↦ name ]
