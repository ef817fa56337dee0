-- ===== src/Prelude/Text/Words.antt =====
-- `s.split(/\s+/)`: the parts between runs of white space.
use Prim.Native.Char.{code}
use Prim.Native.String.{String, [], ◌∷◌}
use mathlib.Core.Bool.{Bool, true, false, not}
use mathlib.Core.List.{List}
use server_central.Prelude.Tests.{if◌then◌else◌}
use server_central.Prelude.Lists.{filter}
use server_central.Prelude.Text.{is_space, is_empty}
use server_central.Prelude.Text.Split.{cons_head}

-- The flag says that white space was read just before.
split_runs : Bool → String → List String
unfolding is_space
split_runs blank [] = List.◌∷◌ [] List.[]
split_runs false (c ∷ s) =
    let next = split_runs true s in
    let here = split_runs false s in
    if is_space (code c) then List.◌∷◌ [] next else cons_head c here
split_runs true (c ∷ s) =
    let next = split_runs true s in
    let here = split_runs false s in if is_space (code c) then next else cons_head c here

unfoldable pub split_spaces : String → List String
unfolding split_runs
split_spaces s = split_runs false s

-- The same without empty parts: `.filter(Boolean)`.
unfoldable pub words : String → List String
unfolding split_spaces filter
words s = filter (λ w. not (is_empty w)) (split_spaces s)
