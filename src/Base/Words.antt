-- ===== src/Base/Words.antt =====
-- More on texts: letters changed one by one, prefixes, suffixes, the part after the last slash.
-- `s.lower()` is written for the ASCII letters.
use Prim.Native.Nat.{ℕ}
use Prim.Native.Char.{Char, code}
use Prim.Native.String.{String}
use mathlib.Core.Bool.{Bool, true, false, ◌||◌, ◌&&◌}
use mathlib.Core.List.{List, [], ◌∷◌}
use ai_devops_copilot.Base.Tests.{eqb, if◌then◌else◌}
use ai_devops_copilot.Base.Text.{codes, strip}

-- the character that stands in the second text where this one stands in the first
unfoldable pub counterpart : String → String → Char → Char
counterpart String.[] to x = x
counterpart (String.◌∷◌ c from) String.[] x = x
counterpart (String.◌∷◌ c from) (String.◌∷◌ d to) x =
    let rest = counterpart from to x in if eqb (code c) (code x) then d else rest

unfoldable pub translate : String → String → String → String
unfolding counterpart
translate from to String.[] = ""
translate from to (String.◌∷◌ c s) = String.◌∷◌ (counterpart from to c) (translate from to s)

-- `s.lower()`
unfoldable pub lowered : String → String
unfolding translate
lowered s = translate "ABCDEFGHIJKLMNOPQRSTUVWXYZ" "abcdefghijklmnopqrstuvwxyz" s

-- `s.replace("_", "-")`
unfoldable pub hyphenated : String → String
unfolding translate
hyphenated s = translate "_" "-" s

-- `s.strip().lower()`
unfoldable pub normalized : String → String
unfolding lowered
normalized s = lowered (strip s)

unfoldable pub equal_codes : List ℕ → List ℕ → Bool
equal_codes [] [] = true
equal_codes (c ∷ s) (d ∷ t) = eqb c d && equal_codes s t
equal_codes s t = false

unfoldable pub is_suffix : List ℕ → List ℕ → Bool
unfolding equal_codes
is_suffix s [] = equal_codes s []
is_suffix s (d ∷ t) = equal_codes s (d ∷ t) || is_suffix s t

-- `text.endswith(suffix)`
unfoldable pub ends_with : String → String → Bool
unfolding is_suffix
ends_with suffix text = is_suffix (codes suffix) (codes text)

unfoldable pub has_slash : String → Bool
has_slash String.[] = false
has_slash (String.◌∷◌ c s) = eqb (code c) b'/' || has_slash s

-- `s.split("/")[-1]`
unfoldable pub last_segment : String → String
unfolding has_slash
last_segment String.[] = ""
last_segment (String.◌∷◌ c s) =
    let rest = last_segment s in if eqb (code c) b'/' || has_slash s then rest else String.◌∷◌ c s

-- the text behind the first of these prefixes that it has
unfoldable pub without_prefix : List ℕ → String → String
without_prefix [] s = s
without_prefix (c ∷ prefix) String.[] = ""
without_prefix (c ∷ prefix) (String.◌∷◌ d s) = without_prefix prefix s
