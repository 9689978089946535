-- ===== src/Base/Text.antt =====
-- C strings as lists of bytes: what `strcmp`, `strstr`, `strrchr`, `tolower` and the `%s` of
-- `snprintf` compute.
use Prim.Native.Nat.{ℕ, ◌+◌}
use Prim.Native.Char.{code}
use Prim.Native.String.{String}
use mathlib.Core.Bool.{Bool, true, false, ◌&&◌, ◌||◌}
use mathlib.Core.List.{List, [], ◌∷◌, map}
use distributed_system_manag.Base.Checks.{leb, ◌==◌, if◌then◌else◌}

-- The bytes of an ASCII literal.
abbrev pub codes : String → List ℕ
codes String.[] = []
codes (String.◌∷◌ c s) = code c ∷ codes s

-- What a C function sees of a buffer: the bytes before the first NUL.
unfoldable pub c_str : List ℕ → List ℕ
c_str [] = []
c_str (c ∷ s) = if c == 0 then [] else c ∷ c_str s

-- `s[strcspn(s, "\n")] = 0`: the text before the first newline.
unfoldable pub chomp : List ℕ → List ℕ
chomp [] = []
chomp (c ∷ s) = if c == 10 then [] else c ∷ chomp s

-- `strcmp(a, b) == 0`
unfoldable pub str_eq : List ℕ → List ℕ → Bool
str_eq [] [] = true
str_eq [] (_ ∷ _) = false
str_eq (_ ∷ _) [] = false
str_eq (a ∷ s) (b ∷ t) = a == b && str_eq s t

unfoldable pub starts_with : List ℕ → List ℕ → Bool
starts_with s [] = true
starts_with [] (_ ∷ _) = false
starts_with (a ∷ s) (b ∷ t) = a == b && starts_with s t

-- `strstr(s, t) != NULL`
unfoldable pub has_substring : List ℕ → List ℕ → Bool
unfolding starts_with
has_substring [] t = starts_with [] t
has_substring (a ∷ s) t = starts_with (a ∷ s) t || has_substring s t

-- `tolower` in the C locale.
unfoldable pub to_lower : ℕ → ℕ
to_lower c = if leb b'A' c && leb c b'Z' then c + 32 else c

-- `strcasecmp(a, b) == 0`
unfoldable pub str_case_eq : List ℕ → List ℕ → Bool
unfolding str_eq to_lower
str_case_eq a b = str_eq (map to_lower a) (map to_lower b)
