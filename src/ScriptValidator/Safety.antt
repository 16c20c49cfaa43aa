-- ===== src/ScriptValidator/Safety.antt =====
-- What an accepted script (src/script_validator.py) cannot hold.
use text.Mathlib.Text.{starts_with}
use swift_route.Prelude.{Bool, true, false, not, ◌||◌, ◌≡◌, refl, arith, str_eq, eq_iff}
use swift_route.ScriptValidator.{
  Kind, name, attribute, call, import_names, import_from, other, Forest, end, node, Node,
  check_node, is_in, is_import, allowed_node_types, banned_builtins, dangerous_attr_patterns,
  is_dangerous, get_dotted_name, validate_call, Validated, accepted, rejected, unfinished,
  validate_tree,
}
use swift_route.ScriptValidator.Walk.{passes, every, Decides, validate_tree-Decides}

-- No name of a banned builtin, no dunder attribute, no call of a dangerous function by its dotted name,
-- and otherwise only nodes of the allowed types and imports.
abbrev pub is_safe : Kind → Forest → Bool
is_safe (name id) children = not (is_in id banned_builtins)
is_safe (attribute attr) children = not (starts_with attr "__")
is_safe call children = not (is_dangerous (get_dotted_name children) dangerous_attr_patterns)
is_safe (other t) children = is_in t allowed_node_types
is_safe kind children = true

abbrev pub is_safe_node : Node → Bool
is_safe_node n = is_safe n.kind n.children

abbrev pub is_no_import : Node → Bool
is_no_import n = not (is_import n.kind)

-- Python's parser gives an import its aliases as children, and at least one.
abbrev pub starts_with_alias : Forest → Bool
starts_with_alias (node (other t) children rest) = str_eq t "alias"
starts_with_alias _ = false

abbrev pub has_alias : Node → Bool
has_alias n = not (is_import n.kind) || starts_with_alias n.children

passes-safe :
    (kind : Kind) (children : Forest)
    → passes (record { kind = kind; children = children }) ≡ true
    → is_safe kind children ≡ true
unfolding check_node validate_call
passes-safe (name id) children h = ground arith
passes-safe (attribute attr) children h = ground arith
passes-safe call children h = ground arith
passes-safe (import_names names) children h = refl
passes-safe (import_from m) children h = refl
passes-safe (other t) children h = ground arith

every_mono :
    (p q : Node → Bool)
    → ((n : Node) → p n ≡ true → q n ≡ true)
    → (f : Forest) → every p f ≡ true
    → every q f ≡ true
unfolding every
every_mono p q imp end h = refl
every_mono p q imp (node kind children rest) h = ground (
  arith,
  imp (record { kind = kind; children = children }),
  every_mono p q imp children,
  every_mono p q imp rest,
)

alias-fails :
    (children : Forest) → passes (record { kind = other "alias"; children = children }) ≡ false
unfolding check_node is_in
alias-fails children = refl

alias_list-fails : (f : Forest) → starts_with_alias f ≡ true → every passes f ≡ false
unfolding every
alias_list-fails (node (other t) children rest) h =
    rw ((eq_iff t "alias").0 h) (rw (alias-fails children) refl)
alias_list-fails (node (name id) children rest) h = ground arith
alias_list-fails (node (attribute attr) children rest) h = ground arith
alias_list-fails (node call children rest) h = ground arith
alias_list-fails (node (import_names names) children rest) h = ground arith
alias_list-fails (node (import_from m) children rest) h = ground arith
alias_list-fails end h = ground arith

no_imports :
    (f : Forest) → every has_alias f ≡ true → every passes f ≡ true → every is_no_import f ≡ true
unfolding every
no_imports end a h = refl
no_imports (node kind children rest) a h =
    ground (arith, no_imports children, no_imports rest, alias_list-fails children)

accepted-passes : (v : Validated) (b : Bool) → Decides v b → v ≡ accepted → b ≡ true
accepted-passes accepted b d e = d
accepted-passes (rejected err) b d e = ground arith
accepted-passes unfinished b d e = absurd d

-- A tree that is accepted holds, at any depth, no name of a banned builtin, no attribute that starts
-- with two underscores, no call of a function whose dotted name is a dangerous pattern or extends one,
-- and besides imports only nodes of the allowed types.
pub validate_tree-safe :
    (tree : Forest) → validate_tree tree ≡ accepted → every is_safe_node tree ≡ true
validate_tree-safe tree e =
    every_mono passes is_safe_node (λ n h. passes-safe n.kind n.children h) tree
      (accepted-passes (validate_tree tree) (every passes tree) (validate_tree-Decides tree) e)

-- Where every import has an alias as its first child, as Python's parser makes it, a tree that is
-- accepted holds no import at all, be its modules whitelisted or not.
pub validate_tree-rejects_imports :
    (tree : Forest)
    → every has_alias tree ≡ true
    → validate_tree tree ≡ accepted
    → every is_no_import tree ≡ true
validate_tree-rejects_imports tree a e =
    no_imports tree a
      (accepted-passes (validate_tree tree) (every passes tree) (validate_tree-Decides tree) e)
