-- ===== src/Shim.antt =====
-- bin/firecracker.py: the wrapper that starts Firecracker inside WSL with the paths of a Windows
-- command line. The lower case of a character is an argument; the process is not modelled.

pub mod Arguments
pub mod Paths
use Prim.Native.Char.{Char, code}
use Prim.Native.String
use swift_route.Prelude.{
  ℕ, zero, suc, ◌+◌, String, Bool, ◌&&◌, ◌||◌, Option, none, some, List, [], ◌∷◌, ltb, ◌==◌, str_eq,
  if◌then◌else◌, length,
}
use swift_route.Prelude.Text.{replace_char}
use swift_route.Prelude.Dict.{Dict, lookup, insert}
use swift_route.Host.{◌++◌}
use mathlib.Core.List.{◌++◌ as ◌+++◌}

infixl 1 ◌>>=◌
abbrev pub ◌>>=◌ {ℓ κ} : {A : Type ℓ} {B : Type κ} → Option A → (A → Option B) → Option B
none >>= k = none
some a >>= k = k a

-- path.replace("\\", "/")
abbrev pub slashed : String → String
slashed = replace_char "\\" "/"

unfoldable pub win_to_wsl : (Char → String) → String → String
win_to_wsl lower String.[] = ""
win_to_wsl lower (String.◌∷◌ c String.[]) = String.◌∷◌ c ""
win_to_wsl lower (String.◌∷◌ c (String.◌∷◌ d rest)) =
    if code d == b':'
    then "/mnt/" ++ (lower c ++ slashed rest)
    else slashed (String.◌∷◌ c (String.◌∷◌ d rest))

-- arg in ("--api-sock", "--config-file")
abbrev pub takes_path : String → Bool
takes_path arg = str_eq arg "--api-sock" || str_eq arg "--config-file"

-- args[i]; an index out of range is `none`.
abbrev pub get_elem? {ℓ} : {A : Type ℓ} → List A → ℕ → Option A
get_elem? [] i = none
get_elem? (x ∷ xs) zero = some x
get_elem? (x ∷ xs) (suc i) = get_elem? xs i

-- The body of the loop: i and wsl_args after a turn.
abbrev pub turn : (Char → String) → List String → ℕ → List String → Option (ℕ × List String)
turn lower args i wsl_args = do
  arg ← get_elem? args i
  if takes_path arg && ltb (i + 1) (length args)
      then (get_elem? args (i + 1) >>= λ path.
          some (i + 2, (wsl_args +++ (arg ∷ [])) +++ (win_to_wsl lower path ∷ [])))
      else some (i + 1, wsl_args +++ (arg ∷ []))

-- The loop, on fuel; `none` is no fuel left or an index out of range.
abbrev pub loop : (Char → String) → ℕ → List String → ℕ → List String → Option (List String)
loop lower zero args i wsl_args = none
loop lower (suc fuel) args i wsl_args =
    if ltb i (length args)
    then elim (turn lower args i wsl_args) [
      | none ↦ none
      | some (j, next) ↦ loop lower fuel args j next
    ]
    else some wsl_args

-- The arguments for WSL: each argument takes at most one turn, and the last test one more.
unfoldable pub wsl_args : (Char → String) → List String → Option (List String)
wsl_args lower args = loop lower (length args + 1) args 0 []

-- The command that main starts.
unfoldable pub command : (Char → String) → List String → Option (List String)
command lower args = do converted ← wsl_args lower args; some ("wsl" ∷ "firecracker" ∷ converted)

-- The environment that main prepares. It is not given to the process.
abbrev pub environment : Dict String → Dict String
environment env =
    let path : String = elim (lookup "WSL_PATH" env) [
      | none ↦ "/usr/local/bin:/usr/bin:/bin"
      | some path ↦ path
    ] in
    insert "PATH" ("/home/mindy/.local/bin:" ++ path) env
