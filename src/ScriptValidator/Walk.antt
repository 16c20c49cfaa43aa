-- ===== src/ScriptValidator/Walk.antt =====
-- The walk of `validate_script` (src/script_validator.py), and a check of every node in tree order.
use swift_route.Prelude.{
  ℕ, zero, suc, ◌+◌, ◌≤◌, Bool, true, false, ◌&&◌, ◌≡◌, refl, sym, subst, none, some, List, [], ◌∷◌,
  ◌++◌, arith, Option-cases, inl, inr,
}
use swift_route.ScriptValidator.{
  Forest, end, node, Node, ScriptValidationError, check_node, nodes, size, Validated, accepted,
  rejected, unfinished, walk, validate_tree,
}

abbrev pub passes : Node → Bool
passes n = elim (check_node n) [ none ↦ true | some e ↦ false ]

-- Whether every node of the forest passes the test.
unfoldable pub every : (Node → Bool) → Forest → Bool
every p end = true
every p (node kind children rest) =
    p (record { kind = kind; children = children }) && every p children && every p rest

-- The same for nodes in a queue, each with what is below it.
unfoldable pub every_below : (Node → Bool) → List Node → Bool
unfolding every
every_below p [] = true
every_below p (n ∷ todo) = p n && every p n.children && every_below p todo

unfoldable weight : List Node → ℕ
unfolding size
weight [] = 0
weight (n ∷ todo) = suc (size n.children + weight todo)

weight-append : (xs ys : List Node) → weight (xs ++ ys) ≡ weight xs + weight ys
unfolding weight
weight-append [] ys = omega arith
weight-append (x ∷ xs) ys = omega (arith, weight-append xs ys)

weight-nodes : (f : Forest) → weight (nodes f) ≡ size f
unfolding weight nodes
weight-nodes end = refl
weight-nodes (node kind children rest) = omega (arith, weight-nodes rest)

every_below-append :
    (p : Node → Bool) (xs ys : List Node)
    → every_below p (xs ++ ys) ≡ (every_below p xs && every_below p ys)
unfolding every_below
every_below-append p [] ys = ground arith
every_below-append p (x ∷ xs) ys = ground (arith, every_below-append p xs ys)

every_below-nodes : (p : Node → Bool) (f : Forest) → every_below p (nodes f) ≡ every p f
unfolding every_below nodes
every_below-nodes p end = refl
every_below-nodes p (node kind children rest) = ground (arith, every_below-nodes p rest)

-- The walk's answer says whether every node passes.
abbrev pub Decides : Validated → Bool → Type 0
Decides accepted b = b ≡ true
Decides (rejected e) b = b ≡ false
Decides unfinished b = ⊥

walk-step :
    (n : Node) (todo : List Node)
    → check_node n ≡ none
    → every_below passes (n ∷ todo) ≡ every_below passes (todo ++ nodes n.children)
unfolding every_below
walk-step n todo e =
    ground (
      arith,
      every_below-append passes todo (nodes n.children),
      every_below-nodes passes n.children,
    )

walk-empty : (fuel : ℕ) → Decides (walk fuel []) (every_below passes [])
unfolding walk every_below
walk-empty fuel = refl

walk-passed :
    (fuel : ℕ) (n : Node) (todo : List Node)
    → check_node n ≡ none
    → walk (suc fuel) (n ∷ todo) ≡ walk fuel (todo ++ nodes n.children)
unfolding walk
walk-passed fuel n todo e = ground arith

walk-failed :
    (fuel : ℕ) (n : Node) (todo : List Node) (err : ScriptValidationError)
    → check_node n ≡ some err
    → walk (suc fuel) (n ∷ todo) ≡ rejected err
unfolding walk
walk-failed fuel n todo err e = ground arith

every_below-failed :
    (n : Node) (todo : List Node) (err : ScriptValidationError)
    → check_node n ≡ some err
    → every_below passes (n ∷ todo) ≡ false
unfolding every_below
every_below-failed n todo err e = ground arith

walk-Decides :
    (fuel : ℕ) (todo : List Node)
    → weight todo ≤ fuel
    → Decides (walk fuel todo) (every_below passes todo)
unfolding weight
walk-Decides fuel [] h = walk-empty fuel
walk-Decides zero (n ∷ todo) h = absurd (omega arith)
walk-Decides (suc fuel) (n ∷ todo) h = elim (Option-cases (check_node n)) [
  | inl e ↦
      subst (λ v. Decides v (every_below passes (n ∷ todo))) (sym (walk-passed fuel n todo e))
        (subst (Decides (walk fuel (todo ++ nodes n.children))) (sym (walk-step n todo e)) (
          walk-Decides fuel (todo ++ nodes n.children)
            (omega (arith, weight-append todo (nodes n.children), weight-nodes n.children))))
  | inr (err, e) ↦
      subst (λ v. Decides v (every_below passes (n ∷ todo))) (sym (walk-failed fuel n todo err e))
        (every_below-failed n todo err e)
]

-- The walk of a tree ends, whatever the tree: it accepts the tree if every node passes its check, and
-- rejects it if one does not.
pub validate_tree-Decides : (tree : Forest) → Decides (validate_tree tree) (every passes tree)
unfolding validate_tree
validate_tree-Decides tree =
    subst (Decides (validate_tree tree)) (every_below-nodes passes tree)
      (walk-Decides (size tree) (nodes tree) (omega (arith, weight-nodes tree)))
