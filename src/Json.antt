-- ===== src/Json.antt =====
-- The flat JSON objects that the program builds: its dicts from texts to texts, numbers and flags.
-- How `json.dumps` prints one is a parameter where it matters.
use swift_route.Prelude.{String, Bool, Option, none, some, [], ◌∷◌}
use swift_route.Prelude.Dict.{Dict}

pub data Json (W : Type 0) : Type 0 where
  text : String → Json W
  number : W → Json W
  flag : Bool → Json W
  null : Json W

abbrev pub JsonObject : Type 0 → Type 0
JsonObject W = Dict (Json W)

-- `json.dumps(o) if o else None`: the empty dict is falsy.
abbrev pub dumps_or_none : {W : Type 0} → (JsonObject W → String) → JsonObject W → Option String
dumps_or_none dumps [] = none
dumps_or_none dumps (e ∷ o) = some (dumps (e ∷ o))
