-- ===== src/Prelude/Sets.antt =====
-- Python's sets of texts: the list of the elements, each once, in the order in which they came.
use Prim.Native.String.{String, compare}
use text.Mathlib.Text.{is_le}
use mathlib.Core.Bool.{Bool, false, ◌||◌}
use mathlib.Core.List.{List, [], ◌∷◌, ◌++◌}
use sentinelai_splunk.Prelude.Tests.{if◌then◌else◌}
use sentinelai_splunk.Prelude.Lists.{contains, sort_by}

-- `xs | ys`
unfoldable pub union : List String → List String → List String
union xs [] = xs
union xs (y ∷ ys) = union (if contains xs y then xs else xs ++ y ∷ []) ys

-- `bool(xs & ys)`
unfoldable pub meets : List String → List String → Bool
meets [] ys = false
meets (x ∷ xs) ys = contains ys x || meets xs ys

-- `sorted(texts)`
unfoldable pub sorted : List String → List String
sorted = sort_by (λ a b. is_le (compare a b))
