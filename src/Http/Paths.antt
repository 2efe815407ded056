-- ===== src/Http/Paths.antt =====
-- net/http: the cleaning of a path before it is matched. A path is the list of its segments.
use mathlib.Core.List.{reverse}
use my_demo_app.Prelude.{
  Bool, true, false, not, ◌&&◌, ◌||◌, List, [], ◌∷◌, ◌==◌, if◌then◌else◌, length, drop,
}
use my_demo_app.Text.{Str, lit, str_eq, is_empty}

-- `cleanPath` of net/http, on the segments behind the first slash: `path.Clean` drops empty segments and
-- `.`, and `..` with the segment before it; a slash at the end stays.
abbrev pub clean_step : Str → List Str → List Str
clean_step x kept =
    if is_empty x || str_eq x (lit ".")
    then kept
    else if str_eq x (lit "..")
    then drop 1 kept
    else x ∷ kept

-- The segments kept so far stand last first.
unfoldable pub clean_onto : List Str → List Str → List Str
clean_onto kept [] = if length kept == 0 then [] ∷ [] else reverse kept
clean_onto kept (x ∷ []) =
    if is_empty x && not (length kept == 0)
    then reverse ([] ∷ kept)
    else clean_onto (clean_step x kept) []
clean_onto kept (x ∷ y ∷ xs) = clean_onto (clean_step x kept) (y ∷ xs)

unfoldable pub clean_path : List Str → List Str
clean_path = clean_onto []

unfoldable pub same_path : List Str → List Str → Bool
same_path [] [] = true
same_path (x ∷ xs) (y ∷ ys) = let rest = same_path xs ys in str_eq x y && rest
same_path _ _ = false
