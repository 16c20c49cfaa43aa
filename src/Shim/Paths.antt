-- ===== src/Shim/Paths.antt =====
-- The paths that `win_to_wsl` of bin/firecracker.py makes.
use Prim.Native.Char.{Char, code}
use Prim.Native.String.append
use swift_route.Prelude.{
  String, false, ◌≡◌, ◌≢◌, refl, ap, sym, ◌∙◌, if◌then◌else◌, ◌==◌, Bool-cases, inl, inr,
}
use swift_route.Prelude.Text.{replace_char}
use swift_route.Host.{◌++◌}
use swift_route.Shim.{win_to_wsl, slashed}

slashed-append : (s t : String) → slashed (s ++ t) ≡ slashed s ++ slashed t
unfolding replace_char
slashed-append String.[] t = ap slashed (append.nil t) ∙ sym (append.nil (slashed t))
slashed-append (String.◌∷◌ c s) t =
    let head : Char = if code c == b'\\' then "/" else c in
    ap slashed (append.cons c s t)
    ∙ ap (String.◌∷◌ head) (slashed-append s t)
    ∙ sym (append.cons head (slashed s) (slashed t))

slash : Char → Char
slash c = if code c == b'\\' then "/" else c

slash_idem : (c : Char) → slash (slash c) ≡ slash c
unfolding slash
slash_idem c = elim (Bool-cases (code c == b'\\')) [ inl e ↦ rw e refl | inr e ↦ rw (e, e) refl ]

slashed_idem : (s : String) → slashed (slashed s) ≡ slashed s
unfolding replace_char slash
slashed_idem String.[] = refl
slashed_idem (String.◌∷◌ c s) = rw (slash_idem c) (ap (String.◌∷◌ (slash c)) (slashed_idem s))

-- A character that is no colon is none after the replacement.
slash_other : (c : Char) → (code c == b':') ≡ false → (code (slash c) == b':') ≡ false
unfolding slash
slash_other c other = elim (Bool-cases (code c == b'\\')) [ inl e ↦ rw e refl | inr e ↦ rw e other ]

below_mnt : (s : String) → "/mnt/" ++ s ≡ String.◌∷◌ "/" (String.◌∷◌ "m" ("nt/" ++ s))
below_mnt s = append.cons "/" "mnt/" s ∙ ap (String.◌∷◌ "/") (append.cons "m" "nt/" s)

-- A path below /mnt/ without a backslash stays.
win_to_wsl_mnt :
    (lower : Char → String) (s : String)
    → slashed s ≡ s
    → win_to_wsl lower ("/mnt/" ++ s) ≡ "/mnt/" ++ s
unfolding win_to_wsl replace_char
win_to_wsl_mnt lower s stays =
    ap (win_to_wsl lower) (below_mnt s)
    ∙ ap (λ t. String.◌∷◌ "/" (String.◌∷◌ "m" t))
        (slashed-append "nt/" s ∙ ap (λ t. "nt/" ++ t) stays)
    ∙ sym (below_mnt s)

-- A path without a drive stays after the replacement.
win_to_wsl-slashed :
    (lower : Char → String) (c d : Char) (rest : String)
    → (code d == b':') ≡ false
    → win_to_wsl lower (slashed (String.◌∷◌ c (String.◌∷◌ d rest)))
      ≡ slashed (String.◌∷◌ c (String.◌∷◌ d rest))
unfolding win_to_wsl replace_char slash
win_to_wsl-slashed lower c d rest other =
    rw (slash_other d other) (slashed_idem (String.◌∷◌ c (String.◌∷◌ d rest)))

-- The path does not start with a backslash.
abbrev IsPlain : String → Type 0
IsPlain String.[] = Unit
IsPlain (String.◌∷◌ c s) = code c ≢ b'\\'

-- Where the lower case of a character other than the backslash has no backslash, a path that does not
-- start with a backslash is converted once and for all: converting the result changes nothing.
win_to_wsl_idem :
    (lower : Char → String) (path : String)
    → ((c : Char) → code c ≢ b'\\' → slashed (lower c) ≡ lower c)
    → IsPlain path
    → win_to_wsl lower (win_to_wsl lower path) ≡ win_to_wsl lower path
unfolding win_to_wsl replace_char
win_to_wsl_idem lower String.[] clean plain = refl
win_to_wsl_idem lower (String.◌∷◌ c String.[]) clean plain = refl
win_to_wsl_idem lower (String.◌∷◌ c (String.◌∷◌ d rest)) clean plain =
    elim (Bool-cases (code d == b':')) [
      | inl drive ↦ rw drive (
          win_to_wsl_mnt lower (lower c ++ slashed rest)
            (slashed-append (lower c) (slashed rest) ∙ rw (clean c plain, slashed_idem rest) refl))
      | inr other ↦ rw other (win_to_wsl-slashed lower c d rest other)
    ]
