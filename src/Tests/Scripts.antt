-- ===== src/Tests/Scripts.antt =====
-- Scripts and what the validator answers.
use swift_route.Prelude.{true, ◌≡◌, refl, ◌∷◌, []}
use swift_route.ScriptValidator.{
  Forest, end, node, name, attribute, call, import_names, other, accepted, rejected,
  disallowed_node, dangerous_call, validate_tree, walk, size, nodes, check_node, is_in,
  validate_call, get_dotted_name, dotted_parts, is_dangerous, ends_with,
}
use swift_route.ScriptValidator.Walk.{passes, every, Decides, validate_tree-Decides}
use swift_route.ScriptValidator.Safety.{
  is_safe_node, is_no_import, validate_tree-safe, validate_tree-rejects_imports,
}

abbrev load : Forest
load = node (other "Load") end end

-- Module(body=[Expr(value=…)])
abbrev module_of : Forest → Forest
module_of value = node (other "Module") (node (other "Expr") value end) end

-- print('hello')
abbrev pub print_hello : Forest
print_hello = module_of (node call (node (name "print") load (node (other "Constant") end end)) end)

-- subprocess.run.x('hello'), and the name eval
abbrev run_shell : Forest
run_shell = module_of (
    node call
      (node (attribute "x") (node (attribute "run") (node (name "subprocess") load load) load)
        (node (other "Constant") end end))
      end)

-- import math
abbrev import_math : Forest
import_math =
    node (other "Module") (node (import_names ("math" ∷ [])) (node (other "alias") end end) end) end

print_hello-accepted : validate_tree print_hello ≡ accepted
unfolding validate_tree walk size nodes check_node is_in validate_call get_dotted_name dotted_parts
    is_dangerous ends_with
print_hello-accepted = refl

run_shell-rejected : validate_tree run_shell ≡ rejected (dangerous_call "subprocess.run.x")
unfolding validate_tree walk size nodes check_node is_in validate_call get_dotted_name dotted_parts
    is_dangerous ends_with
run_shell-rejected = refl

-- The whitelisted module is refused, for its alias.
import_math-rejected : validate_tree import_math ≡ rejected (disallowed_node "alias")
unfolding validate_tree walk size nodes check_node is_in validate_call get_dotted_name dotted_parts
    is_dangerous ends_with
import_math-rejected = refl

validate_tree-Decides_example : Decides (validate_tree import_math) (every passes import_math)
validate_tree-Decides_example = validate_tree-Decides import_math

validate_tree-safe_example : every is_safe_node print_hello ≡ true
validate_tree-safe_example = validate_tree-safe print_hello print_hello-accepted

validate_tree-rejects_imports_example : every is_no_import print_hello ≡ true
unfolding every
validate_tree-rejects_imports_example =
    validate_tree-rejects_imports print_hello refl print_hello-accepted
