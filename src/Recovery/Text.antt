-- ===== src/Recovery/Text.antt =====
-- Python's `in` and `lower` on texts. The tokens that the classifier looks for are ASCII, and so is
-- the folding of case here.
use evo_review_agent.Base.{
  ℕ, ◌+◌, String, Bool, true, false, ◌&&◌, ◌||◌, List, [], ◌∷◌, ◌++◌, map, leb, eqb, if◌then◌else◌,
}
use evo_review_agent.Base.Key.{text_key}
use Prim.Native.Char.{code}

abbrev pub codes : String → List ℕ
codes String.[] = []
codes (String.◌∷◌ c s) = code c ∷ codes s

abbrev lower_code : ℕ → ℕ
lower_code c = if leb 65 c && leb c 90 then c + 32 else c

-- s.lower()
unfoldable pub lower : List ℕ → List ℕ
lower = map lower_code

unfoldable pub starts_with : List ℕ → List ℕ → Bool
starts_with [] s = true
starts_with (c ∷ cs) [] = false
starts_with (c ∷ cs) (d ∷ s) = eqb c d && starts_with cs s

-- `token in s`
unfoldable pub occurs : List ℕ → List ℕ → Bool
unfolding starts_with
occurs token [] = starts_with token []
occurs token (c ∷ s) = starts_with token (c ∷ s) || occurs token s

-- `" ".join(filter(None, [a, b]))`
unfoldable pub joined : List ℕ → List ℕ → List ℕ
joined [] b = b
joined (x ∷ a) [] = x ∷ a
joined (x ∷ a) (y ∷ b) = (x ∷ a) ++ (32 ∷ y ∷ b)
