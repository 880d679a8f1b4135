-- ===== src/Network/NetAddr.antt =====
-- network/server.go: addresses that name the local host in two ways. A string is its bytes.
use blockz.Prelude.{Bool, true, false, [], ◌∷◌, ◌++◌, if◌then◌else◌, ◌==◌, ◌&&◌, drop, length}
use blockz.Types.{Bytes}
use blockz.Network.Message.{NetAddr}

abbrev pub localhost : Bytes
localhost = 108 ∷ 111 ∷ 99 ∷ 97 ∷ 108 ∷ 104 ∷ 111 ∷ 115 ∷ 116 ∷ []

-- "127.0.0.1"
abbrev pub loopback : Bytes
loopback = 49 ∷ 50 ∷ 55 ∷ 46 ∷ 48 ∷ 46 ∷ 48 ∷ 46 ∷ 49 ∷ []

-- `strings.HasPrefix`
unfoldable pub has_prefix : Bytes → Bytes → Bool
has_prefix [] s = true
has_prefix (x ∷ p) [] = false
has_prefix (x ∷ p) (y ∷ s) = (x == y) && has_prefix p s

-- `strings.Contains`, for a part that is not empty
unfoldable pub contains_part : Bytes → Bytes → Bool
contains_part part [] = false
contains_part part (x ∷ s) =
    let rest = contains_part part s in if has_prefix part (x ∷ s) then true else rest

-- `strings.Replace` of the first place, for a part that is not empty
unfoldable pub replace_first : Bytes → Bytes → Bytes → Bytes
replace_first part by [] = []
replace_first part by (x ∷ s) =
    let rest = replace_first part by s in
    if has_prefix part (x ∷ s) then by ++ drop (length part) (x ∷ s) else x ∷ rest

-- "localhost" becomes "127.0.0.1", as in `send` and `bootstrap`.
unfoldable pub resolve : NetAddr → NetAddr
resolve addr = if contains_part localhost addr then replace_first localhost loopback addr else addr
