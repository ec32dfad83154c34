-- ===== src/Strings.antt =====
-- The std::string operations that the set-up code uses.
use Prim.Native.Char.{code}
use Prim.Native.String.{String, [], ◌∷◌}
use text.Mathlib.Text.{starts_with}
use abtrda.Prelude.{ℕ, Bool, true, false, ◌||◌, ◌==◌, if◌then◌else◌}

abbrev pub is_empty : String → Bool
is_empty [] = true
is_empty (c ∷ s) = false

-- `s.substr(0, s.find(c))`
unfoldable pub before : ℕ → String → String
before stop [] = []
before stop (c ∷ s) = let rest = before stop s in if code c == stop then [] else c ∷ rest

-- `s.find(part) != npos`
unfoldable pub contains : String → String → Bool
contains part [] = is_empty part
contains part (c ∷ s) = starts_with (c ∷ s) part || contains part s
