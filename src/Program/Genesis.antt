-- ===== src/Program/Genesis.antt =====
-- main.go: the balances that `createGenesisAllocs` lists.
use blockz.Prelude.{
  ℕ, ◌/◌, ◌≡◌, refl, sym, Bool, true, false, List, [], ◌∷◌, none, some, if◌then◌else◌, ◌=?◌, ◌||◌,
  bytes_eq, arith, Bool-cases, inl, inr, bytes_beq_iff, not, ◌&&◌, ◌+◌, ◌*◌, length,
}
use blockz.Result.{ok}
use blockz.Map.{Map, lookup, insert, sum_by}
use blockz.Map.Laws.{lookup-insert, sum_by-insert, value_of}
use blockz.Types.{Address, address_from_bytes, copy_bytes}
use blockz.Text.Hex.{hex_decode, hex_value}
use blockz.Program.{dev_addresses, fund, create_genesis_allocs, genesis_alloc_total}

unfoldable pub among : Address → List Address → Bool
among a [] = false
among a (x ∷ xs) = (x =? a) || among a xs

-- The bytes of the five development accounts
unfoldable pub dev_accounts : List Address
dev_accounts =
    (243 ∷ 159 ∷ 214 ∷ 229 ∷ 26 ∷ 173 ∷ 136 ∷ 246 ∷ 244 ∷ 206 ∷ 106 ∷ 184 ∷ 130 ∷ 114 ∷ 121 ∷ 207
      ∷ 255 ∷ 185 ∷ 34 ∷ 102 ∷ [])
    ∷ (112 ∷ 153 ∷ 121 ∷ 112 ∷ 197 ∷ 24 ∷ 18 ∷ 220 ∷ 58 ∷ 1 ∷ 12 ∷ 125 ∷ 1 ∷ 181 ∷ 14 ∷ 13 ∷ 23
        ∷ 220 ∷ 121 ∷ 200 ∷ [])
    ∷ (60 ∷ 68 ∷ 205 ∷ 221 ∷ 182 ∷ 169 ∷ 0 ∷ 250 ∷ 43 ∷ 88 ∷ 93 ∷ 210 ∷ 153 ∷ 224 ∷ 61 ∷ 18 ∷ 250
        ∷ 66 ∷ 147 ∷ 188 ∷ [])
    ∷ (144 ∷ 247 ∷ 155 ∷ 246 ∷ 235 ∷ 44 ∷ 79 ∷ 135 ∷ 3 ∷ 101 ∷ 231 ∷ 133 ∷ 152 ∷ 46 ∷ 31 ∷ 16 ∷ 30
        ∷ 147 ∷ 185 ∷ 6 ∷ [])
    ∷ (21 ∷ 211 ∷ 74 ∷ 175 ∷ 84 ∷ 38 ∷ 125 ∷ 183 ∷ 215 ∷ 195 ∷ 103 ∷ 131 ∷ 154 ∷ 175 ∷ 113 ∷ 160
        ∷ 10 ∷ 44 ∷ 106 ∷ 101 ∷ [])
    ∷ []

abbrev fund_all : ℕ → List Address → Map Address ℕ → Map Address ℕ
fund_all amount [] m = m
fund_all amount (a ∷ rest) m = fund_all amount rest (insert a amount m)

lookup-fund_all :
    (amount : ℕ) (accounts : List Address) (a : Address) (m : Map Address ℕ)
    → lookup a (fund_all amount accounts m) ≡ (if among a accounts then some amount else lookup a m)
unfolding among
lookup-fund_all amount [] a m = refl
lookup-fund_all amount (x ∷ accounts) a m =
    let read = lookup-insert x a amount m in
    let rest = lookup-fund_all amount accounts a (insert x amount m) in ground (arith, read, rest)

decoded :
    (m : Map Address ℕ) → fund 100000000 dev_addresses m ≡ ok (fund_all 100000000 dev_accounts m)
unfolding fund dev_addresses dev_accounts hex_decode hex_value address_from_bytes copy_bytes
decoded m = refl

unfoldable pub distinct : List Address → Bool
distinct [] = true
distinct (x ∷ accounts) = not (among x accounts) && distinct accounts

-- What the accounts have before they are funded
abbrev overwritten : List Address → Map Address ℕ → ℕ
overwritten [] m = 0
overwritten (x ∷ accounts) m = value_of (λ n. n) (lookup x m) + overwritten accounts m

overwritten-insert :
    (x : Address) (amount : ℕ) (accounts : List Address) (m : Map Address ℕ)
    → among x accounts ≡ false
    → overwritten accounts (insert x amount m) ≡ overwritten accounts m
unfolding among
overwritten-insert x amount [] m new = refl
overwritten-insert x amount (y ∷ accounts) m new =
    let read = lookup-insert x y amount m in
    ground (arith, bytes_beq_iff x y, bytes_beq_iff y x, overwritten-insert x amount accounts m)

sum-fund_all :
    (amount : ℕ) (accounts : List Address) (m : Map Address ℕ)
    → distinct accounts ≡ true
    → sum_by (λ n. n) (fund_all amount accounts m) + overwritten accounts m
      ≡ sum_by (λ n. n) m + length accounts * amount
unfolding distinct
sum-fund_all amount [] m d = omega arith
sum-fund_all amount (x ∷ accounts) m d =
    let new : among x accounts ≡ false = ground arith in
    let rest = sum-fund_all amount accounts (insert x amount m) (ground arith) in
    omega
      (arith, rest, overwritten-insert x amount accounts m new, sum_by-insert (λ n. n) x amount m)

value_alone :
    (v x : Address) (amount : ℕ)
    → value_of (λ n. n) (lookup x (insert v amount [])) ≡ (if v =? x then amount else 0)
unfolding lookup insert
value_alone v x amount = elim (Bool-cases (v =? x)) [
  | inl same ↦ rw (same)
  | inr other ↦ rw (other)
]

overwritten-one :
    (v : Address) (amount : ℕ) (accounts : List Address)
    → distinct accounts ≡ true
    → overwritten accounts (insert v amount []) ≡ (if among v accounts then amount else 0)
unfolding distinct among
overwritten-one v amount [] d = refl
overwritten-one v amount (x ∷ accounts) d =
    let read = value_alone v x amount in
    let rest = overwritten-one v amount accounts (ground arith) in
    elim (Bool-cases (x =? v)) [
      | inr other ↦ ground (arith, read, rest, bytes_beq_iff x v, bytes_beq_iff v x)
      | inl same ↦
          let one : x ≡ v = (bytes_beq_iff x v).0 same in
          let new : among v accounts ≡ false = rw (← one) (ground arith) in
          let back : (v =? x) ≡ true = (bytes_beq_iff v x).1 (sym one) in
          ground (arith, read, rest, new, back, same)
    ]

are_distinct : distinct dev_accounts ≡ true
unfolding distinct dev_accounts among
are_distinct = refl

five_accounts : length dev_accounts ≡ 5
unfolding dev_accounts
five_accounts = refl

-- Each of the five development accounts has 100 million tokens, and the validator 500 million, unless
-- it is one of the five, whose balance it then has. So the balances add up to the intended billion,
-- except for a validator that is one of the five: then they add up to half of it.
pub create_genesis_allocs_lem :
    (v a : Address)
    → (allocs : Map Address ℕ) × (create_genesis_allocs v ≡ ok allocs)
      × (sum_by (λ n. n) allocs
          ≡ (if among v dev_accounts then genesis_alloc_total / 2 else genesis_alloc_total))
      × (lookup a allocs ≡ (
          if among a dev_accounts then some 100000000 else if v =? a then some 500000000 else none))
unfolding create_genesis_allocs insert dev_addresses lookup
create_genesis_allocs_lem v a =
    let start = insert v 500000000 [] in
    let total = sum-fund_all 100000000 dev_accounts start are_distinct in
    let before = overwritten-one v 500000000 dev_accounts are_distinct in
    (
      fund_all 100000000 dev_accounts start,
      decoded start,
      ground (arith, total, before, five_accounts),
      lookup-fund_all 100000000 dev_accounts a start,
    )
