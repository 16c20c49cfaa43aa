-- ===== src/Shim/Arguments.antt =====
-- The loop of `main` in bin/firecracker.py, over an index, beside a reading of the arguments one
-- after the other.
use Prim.Native.Char.{Char}
use mathlib.Core.List.{◌++◌, append_assoc, append-nil}
use swift_route.Prelude.{
  ℕ, zero, suc, ◌+◌, ◌<◌, String, true, false, ◌≡◌, refl, sym, ap, ◌∙◌, some, List, [], ◌∷◌, length,
  length-append, arith, if◌then◌else◌, inl, inr, Bool-cases,
}
use swift_route.Shim.{win_to_wsl, takes_path, get_elem?, turn, loop, wsl_args, command}

-- Each argument that takes a path and has a successor is followed by the path for WSL; all the
-- others stay.
abbrev pub converted : (Char → String) → List String → List String
converted lower [] = []
converted lower (arg ∷ []) = arg ∷ []
converted lower (arg ∷ path ∷ rest) = elim (takes_path arg) [
  | true ↦ arg ∷ win_to_wsl lower path ∷ converted lower rest
  | false ↦ arg ∷ converted lower (path ∷ rest)
]

get_elem?-append {ℓ} :
    {A : Type ℓ} (pre rest : List A) (x : A) → get_elem? (pre ++ (x ∷ rest)) (length pre) ≡ some x
get_elem?-append [] rest x = refl
get_elem?-append (y ∷ pre) rest x = get_elem?-append pre rest x

show_suc : (n : ℕ) → suc n + 1 ≡ suc (n + 1)
show_suc n = omega arith

get_elem?-append_suc {ℓ} :
    {A : Type ℓ} (pre rest : List A) (x y : A)
    → get_elem? (pre ++ (x ∷ y ∷ rest)) (length pre + 1) ≡ some y
get_elem?-append_suc [] rest x y = refl
get_elem?-append_suc (z ∷ pre) rest x y =
    rw (show_suc (length pre)) (get_elem?-append_suc pre rest x y)

-- The turn at the last argument.
turn_last :
    (lower : Char → String) (arg : String) (pre out : List String)
    → turn lower (pre ++ (arg ∷ [])) (length pre) out ≡ some (length pre + 1, out ++ (arg ∷ []))
turn_last lower arg pre out =
    rw (get_elem?-append pre [] arg, length-append pre (arg ∷ [])) (ground arith)

-- The turn at an argument that has a successor.
turn_inner :
    (lower : Char → String) (arg path : String) (pre rest out : List String)
    → turn lower (pre ++ (arg ∷ path ∷ rest)) (length pre) out ≡ (
        if takes_path arg
        then some (length pre + 2, (out ++ (arg ∷ [])) ++ (win_to_wsl lower path ∷ []))
        else some (length pre + 1, out ++ (arg ∷ [])))
turn_inner lower arg path pre rest out =
    rw
      (
        get_elem?-append pre (path ∷ rest) arg,
        length-append pre (arg ∷ path ∷ rest),
        get_elem?-append_suc pre rest arg path,
      )
      (ground arith)

-- A turn of the loop.
loop-turn :
    (lower : Char → String) (fuel : ℕ) (args : List String) (i j : ℕ) (out next r : List String)
    → i < length args
    → turn lower args i out ≡ some (j, next)
    → loop lower fuel args j next ≡ some r
    → loop lower (suc fuel) args i out ≡ some r
loop-turn lower fuel args i j out next r inside turned rest =
    rw (turned) (ground (arith, inside, rest))

converted_taken :
    (lower : Char → String) (arg path : String) (rest out : List String)
    → takes_path arg ≡ true
    → ((out ++ (arg ∷ [])) ++ (win_to_wsl lower path ∷ [])) ++ converted lower rest
      ≡ out ++ converted lower (arg ∷ path ∷ rest)
converted_taken lower arg path rest out h =
    let wsl = win_to_wsl lower path in
    rw (h, converted)
      (append_assoc (out ++ (arg ∷ [])) (wsl ∷ []) (converted lower rest)
        ∙ append_assoc out (arg ∷ []) (wsl ∷ converted lower rest))

converted_kept :
    (lower : Char → String) (arg path : String) (rest out : List String)
    → takes_path arg ≡ false
    → (out ++ (arg ∷ [])) ++ converted lower (path ∷ rest)
      ≡ out ++ converted lower (arg ∷ path ∷ rest)
converted_kept lower arg path rest out h =
    rw (h, converted) (append_assoc out (arg ∷ []) (converted lower (path ∷ rest)))

-- The loop, where `pre` is read and `rest` is not.
loop-append :
    (lower : Char → String) (fuel : ℕ) (args : List String) (i : ℕ) (out pre rest : List String)
    → args ≡ pre ++ rest
    → i ≡ length pre
    → length rest < fuel
    → loop lower fuel args i out ≡ some (out ++ converted lower rest)
loop-append lower zero args i out pre rest split at enough = absurd (omega (arith, enough))
loop-append lower (suc fuel) args i out pre [] split at enough =
    rw (split, at, append-nil pre, append-nil out) (ground arith)
loop-append lower (suc fuel) args i out pre (arg ∷ []) split at enough =
    let count = ap length split ∙ length-append pre (arg ∷ []) in
    loop-turn lower fuel args i (i + 1) out (out ++ (arg ∷ [])) (out ++ (arg ∷ []))
      (omega (arith, count, at)) (rw (split, at) (turn_last lower arg pre out))
      (loop-append lower fuel args (i + 1) (out ++ (arg ∷ [])) args [] (sym (append-nil args))
          (omega (arith, count, at)) (omega (arith, enough))
        ∙ ap some (append-nil (out ++ (arg ∷ []))))
loop-append lower (suc fuel) args i out pre (arg ∷ path ∷ rest) split at enough =
    let count = ap length split ∙ length-append pre (arg ∷ path ∷ rest) in
    let wsl = win_to_wsl lower path in
    elim (Bool-cases (takes_path arg)) [
      | inl h ↦
          loop-turn lower fuel args i (i + 2) out ((out ++ (arg ∷ [])) ++ (wsl ∷ []))
            (out ++ converted lower (arg ∷ path ∷ rest)) (omega (arith, count, at))
            (rw (split, at) (turn_inner lower arg path pre rest out ∙ rw h refl))
            (loop-append lower fuel args (i + 2) ((out ++ (arg ∷ [])) ++ (wsl ∷ []))
                (pre ++ (arg ∷ path ∷ [])) rest
                (split ∙ sym (append_assoc pre (arg ∷ path ∷ []) rest))
                (omega (arith, at, length-append pre (arg ∷ path ∷ []))) (omega (arith, enough))
              ∙ ap some (converted_taken lower arg path rest out h))
      | inr h ↦
          loop-turn lower fuel args i (i + 1) out (out ++ (arg ∷ []))
            (out ++ converted lower (arg ∷ path ∷ rest)) (omega (arith, count, at))
            (rw (split, at) (turn_inner lower arg path pre rest out ∙ rw h refl))
            (loop-append lower fuel args (i + 1) (out ++ (arg ∷ [])) (pre ++ (arg ∷ []))
                (path ∷ rest) (split ∙ sym (append_assoc pre (arg ∷ []) (path ∷ rest)))
                (omega (arith, at, length-append pre (arg ∷ []))) (omega (arith, enough))
              ∙ ap some (converted_kept lower arg path rest out h))
    ]

-- The loop ends without an index out of range, and the arguments it makes are those read one after
-- the other; the command that is started ends with them.
pub wsl_args-converted :
    (lower : Char → String) (args : List String)
    → (wsl_args lower args ≡ some (converted lower args))
      × (command lower args ≡ some ("wsl" ∷ "firecracker" ∷ converted lower args))
unfolding wsl_args command
wsl_args-converted lower args =
    let ends = loop-append lower (length args + 1) args 0 [] [] args refl refl (omega arith) in
    (ends, rw ends refl)
