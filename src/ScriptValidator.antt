-- ===== src/ScriptValidator.antt =====
-- src/script_validator.py: the check of a script's syntax tree. The decoder of UTF-8 and Python's
-- parser are arguments; the tree is as `ast.iter_child_nodes` shows it.
pub mod Walk
pub mod Safety
use Prim.Native.Char.{code}
use Prim.Native.String
use text.Mathlib.Text.{starts_with}
use swift_route.Prelude.{
  ℕ, zero, suc, ◌+◌, ◌==◌, String, Bool, true, false, ◌||◌, ◌&&◌, not, Option, none, some, List, [],
  ◌∷◌, ◌++◌, str_eq, if◌then◌else◌,
}

-- What the checks read of a node: the id of a Name, the attr of an Attribute, the names of an Import,
-- the module of an ImportFrom; of any other node only the type.
pub data Kind : Type 0 where
  name : String → Kind
  attribute : String → Kind
  call : Kind
  import_names : List String → Kind
  import_from : Option String → Kind
  other : String → Kind

-- Nodes side by side: a node has its kind, its children and the nodes that follow it. The first child
-- of an Attribute is its `value`, that of a Call its `func`.
pub data Forest : Type 0 where
  end : Forest
  node : Kind → Forest → Forest → Forest

pub record Node : Type 0 where
  pub kind : Kind
  pub children : Forest

abbrev pub type_name : Kind → String
type_name (name id) = "Name"
type_name (attribute attr) = "Attribute"
type_name call = "Call"
type_name (import_names names) = "Import"
type_name (import_from m) = "ImportFrom"
type_name (other t) = t

pub data ScriptValidationError : Type 0 where
  not_utf8 invalid_syntax : ScriptValidationError
  disallowed_construct : String → ScriptValidationError
  disallowed_node : String → ScriptValidationError
  import_not_permitted : String → ScriptValidationError
  import_from_not_permitted : Option String → ScriptValidationError
  banned_call : String → ScriptValidationError
  dangerous_call : String → ScriptValidationError
  dynamic_call : String → ScriptValidationError
  dunder_access : String → ScriptValidationError
  banned_reference : String → ScriptValidationError

-- x in {…}
unfoldable pub is_in : String → List String → Bool
is_in x [] = false
is_in x (y ∷ ys) = str_eq y x || is_in x ys

abbrev pub allowed_node_types : List String
allowed_node_types =
    "Module" ∷ "Expr" ∷ "Load" ∷ "Store" ∷ "Constant" ∷ "Name" ∷ "BinOp" ∷ "UnaryOp" ∷ "BoolOp"
    ∷ "Compare" ∷ "If" ∷ "For" ∷ "While" ∷ "Break" ∷ "Continue" ∷ "Pass" ∷ "Return" ∷ "Assign"
    ∷ "AnnAssign" ∷ "AugAssign" ∷ "Subscript" ∷ "Index" ∷ "List" ∷ "Tuple" ∷ "Dict" ∷ "Set"
    ∷ "JoinedStr" ∷ "FormattedValue" ∷ "Add" ∷ "Sub" ∷ "Mult" ∷ "Div" ∷ "FloorDiv" ∷ "Mod" ∷ "Pow"
    ∷ "LShift" ∷ "RShift" ∷ "BitOr" ∷ "BitXor" ∷ "BitAnd" ∷ "MatMult" ∷ "USub" ∷ "UAdd" ∷ "Invert"
    ∷ "Not" ∷ "And" ∷ "Or" ∷ "Eq" ∷ "NotEq" ∷ "Lt" ∷ "LtE" ∷ "Gt" ∷ "GtE" ∷ "Is" ∷ "IsNot" ∷ "In"
    ∷ "NotIn" ∷ "Call" ∷ "Attribute" ∷ "IfExp" ∷ "ListComp" ∷ "SetComp" ∷ "DictComp"
    ∷ "GeneratorExp" ∷ "comprehension" ∷ "Try" ∷ "ExceptHandler" ∷ "Raise" ∷ "With" ∷ "withitem"
    ∷ "Assert" ∷ "Global" ∷ "Nonlocal" ∷ "NamedExpr" ∷ "Match" ∷ "match_case" ∷ "MatchValue"
    ∷ "MatchSingleton" ∷ "MatchSequence" ∷ "MatchStar" ∷ "MatchMapping" ∷ "MatchClass" ∷ "MatchAs"
    ∷ "MatchOr" ∷ []

abbrev pub allowed_imports : List String
allowed_imports =
    "math" ∷ "random" ∷ "statistics" ∷ "decimal" ∷ "fractions" ∷ "itertools" ∷ "functools"
    ∷ "collections" ∷ "datetime" ∷ "json" ∷ "re" ∷ "string" ∷ "hashlib" ∷ "base64" ∷ "typing"
    ∷ "dataclasses" ∷ "enum" ∷ "numbers" ∷ "operator" ∷ "copy" ∷ " pprint" ∷ []

abbrev pub banned_builtins : List String
banned_builtins =
    "eval" ∷ "exec" ∷ "compile" ∷ "open" ∷ "__import__" ∷ "input" ∷ "exit" ∷ "quit" ∷ "help"
    ∷ "breakpoint" ∷ "getattr" ∷ "setattr" ∷ "delattr" ∷ "hasattr" ∷ []

abbrev pub dangerous_attr_patterns : List String
dangerous_attr_patterns =
    "os.system" ∷ "os.popen" ∷ "os.spawn" ∷ "os.fork" ∷ "os.kill" ∷ "subprocess.call"
    ∷ "subprocess.run" ∷ "subprocess.Popen" ∷ "subprocess.check_output" ∷ "sys.exit" ∷ "sys.modules"
    ∷ "platform.popen" ∷ "socket.socket" ∷ "urllib.request" ∷ "requests.get" ∷ "requests.post"
    ∷ "ftplib.FTP" ∷ "smtplib.SMTP" ∷ []

abbrev pub definitions : List String
definitions = "FunctionDef" ∷ "AsyncFunctionDef" ∷ "ClassDef" ∷ "Lambda" ∷ []

-- s.endswith(t)
unfoldable pub ends_with : String → String → Bool
ends_with String.[] t = str_eq t ""
ends_with (String.◌∷◌ c s) t = str_eq t (String.◌∷◌ c s) || ends_with s t

-- s.split(".")[0]
unfoldable pub root_of : String → String
root_of String.[] = ""
root_of (String.◌∷◌ c s) = let rest = root_of s in if code c == b'.' then "" else String.◌∷◌ c rest

-- ".".join(parts)
abbrev pub join_dots : List String → String
join_dots [] = ""
join_dots (x ∷ []) = x
join_dots (x ∷ y ∷ ys) = String.◌++◌ x (String.◌++◌ "." (join_dots (y ∷ ys)))

-- The parts of the dotted name of the first node.
unfoldable pub dotted_parts : Forest → List String
dotted_parts end = []
dotted_parts (node (attribute attr) children rest) = dotted_parts children ++ (attr ∷ [])
dotted_parts (node (name id) children rest) = id ∷ []
dotted_parts (node _ children rest) = []

unfoldable pub get_dotted_name : Forest → String
get_dotted_name f = join_dots (dotted_parts f)

abbrev pub first_check : List (Option ScriptValidationError) → Option ScriptValidationError
first_check [] = none
first_check (some e ∷ rest) = some e
first_check (none ∷ rest) = first_check rest

abbrev pub raise_if : Bool → ScriptValidationError → Option ScriptValidationError
raise_if b e = if b then some e else none

unfoldable pub check_aliases : List String → Option ScriptValidationError
check_aliases [] = none
check_aliases (alias ∷ rest) =
    let later = check_aliases rest in
    if is_in (root_of alias) allowed_imports then later else some (import_not_permitted alias)

unfoldable pub validate_import : Kind → Option ScriptValidationError
validate_import (import_names names) = check_aliases names
validate_import (import_from m) =
    let from : String = elim m [ some text ↦ text | none ↦ "" ] in
    raise_if (not (is_in (root_of from) allowed_imports)) (import_from_not_permitted m)
validate_import _ = none

-- isinstance(func, ast.Name) and func.id in _BANNED_BUILTINS
abbrev pub calls_banned : Forest → Option ScriptValidationError
calls_banned (node (name id) children rest) = raise_if (is_in id banned_builtins) (banned_call id)
calls_banned _ = none

unfoldable pub is_dangerous : String → List String → Bool
is_dangerous dotted [] = false
is_dangerous dotted (p ∷ ps) =
    str_eq dotted p || starts_with dotted (String.◌++◌ p ".") || is_dangerous dotted ps

unfoldable pub validate_call : Forest → Option ScriptValidationError
validate_call children =
    let dotted = get_dotted_name children in
    first_check (
      calls_banned children
      ∷ raise_if (is_dangerous dotted dangerous_attr_patterns) (dangerous_call dotted)
      ∷ raise_if
          (ends_with dotted "__import__" || ends_with dotted "eval" || ends_with dotted "exec")
          (dynamic_call dotted)
      ∷ [])

abbrev pub is_import : Kind → Bool
is_import (import_names names) = true
is_import (import_from m) = true
is_import _ = false

abbrev pub disallowed : String → ScriptValidationError
disallowed t = if is_in t definitions then disallowed_construct t else disallowed_node t

-- The checks of an allowed node, after the test of its type.
abbrev pub check_allowed : Kind → Forest → Option ScriptValidationError
check_allowed (name id) children = raise_if (is_in id banned_builtins) (banned_reference id)
check_allowed (attribute attr) children = raise_if (starts_with attr "__") (dunder_access attr)
check_allowed call children = validate_call children
check_allowed (other t) children = none
check_allowed kind children = validate_import kind

-- The body of the loop over the nodes: an error, or `none` where it goes on. An import is passed over
-- before its own check, since its type is not among the allowed ones.
unfoldable pub check_node : Node → Option ScriptValidationError
check_node n =
    if not (is_in (type_name n.kind) allowed_node_types)
    then (if is_import n.kind then none else some (disallowed (type_name n.kind)))
    else check_allowed n.kind n.children

unfoldable pub nodes : Forest → List Node
nodes end = []
nodes (node kind children rest) = record { kind = kind; children = children } ∷ nodes rest

-- How many nodes there are.
unfoldable pub size : Forest → ℕ
size end = 0
size (node kind children rest) = suc (size children + size rest)

pub data Validated : Type 0 where
  accepted : Validated
  rejected : ScriptValidationError → Validated
  -- The fuel ran out.
  unfinished : Validated

-- ast.walk takes the nodes from a queue and appends the children of each, which is checked before the
-- next is taken.
unfoldable pub walk : ℕ → List Node → Validated
walk fuel [] = accepted
walk zero (n ∷ todo) = unfinished
walk (suc fuel) (n ∷ todo) =
    let rest = walk fuel (todo ++ nodes n.children) in
    elim (check_node n) [ some e ↦ rejected e | none ↦ rest ]

unfoldable pub validate_tree : Forest → Validated
validate_tree tree = walk (size tree) (nodes tree)

-- The tree is that of the one Module node.
unfoldable pub validate_script :
    {Bytes : Type 0} → (Bytes → Option String) → (String → Option Forest) → Bytes → Validated
validate_script decode parse decoded = elim (decode decoded) [
  | none ↦ rejected not_utf8
  | some text ↦ elim (parse text) [
    | none ↦ rejected invalid_syntax
    | some tree ↦ validate_tree tree
  ]
]
