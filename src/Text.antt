-- ===== src/Text.antt =====
-- Go strings as the list of their bytes: literals, and the functions of the library that the code
-- calls on them.
pub mod Hex
use Prim.Native.Char.{code}
use Prim.Native.String.{String}
use blockz.Prelude.{ℕ, [], ◌∷◌, ◌+◌, ◌-◌, if◌then◌else◌, leb, ◌&&◌, map}
use blockz.Types.{Bytes}

-- The bytes of a literal, which is ASCII
abbrev pub codes : String → Bytes
codes String.[] = []
codes (String.◌∷◌ c s) = code c ∷ codes s

-- `strings.ToLower`, for ASCII
abbrev pub lower_code : ℕ → ℕ
lower_code c = if leb 65 c && leb c 90 then c + 32 else c

abbrev pub to_lower : Bytes → Bytes
to_lower s = map lower_code s
