-- ===== src/Core/WorldState/Root.antt =====
-- `StateRoot` of core/world_state.go: the accounts in the order of their addresses, hashed.
use blockz.Prelude.{
  ◌≡◌, refl, sym, ap, ◌∙◌, Bool, true, false, List, [], ◌∷◌, ◌++◌, none, some, if◌then◌else◌, ltb,
  ◌==◌, length, bytes_eq, bytes_beq_iff, ◌≢◌, arith, Bool-cases, Option-cases, inl, inr,
}
use blockz.Result.{Result, ok, err, panic, ◌>>=◌, nil_dereference, Result-cases}
use blockz.Core.Account.{Account}
use blockz.Map.{Map, lookup, keys}
use blockz.Types.{address_to_slice, Bytes, Address, Hash}
use blockz.Core.Data.{Primitives}
use blockz.Core.WorldState.{WorldState}

-- The comparison that `sort.Slice` is given: the first byte that differs decides.
unfoldable pub address_lt : Address → Address → Bool
address_lt [] ys = false
address_lt (x ∷ xs) [] = false
address_lt (x ∷ xs) (y ∷ ys) = let rest = address_lt xs ys in if x == y then rest else ltb x y

unfoldable pub insert_sorted : Address → List Address → List Address
insert_sorted a [] = a ∷ []
insert_sorted a (b ∷ l) =
    let rest = insert_sorted a l in if address_lt b a then b ∷ rest else a ∷ b ∷ l

address_lt_asym : (a b : Address) → address_lt a b ≡ true → address_lt b a ≡ false
unfolding address_lt
address_lt_asym [] b h = cc
address_lt_asym (x ∷ xs) [] h = refl
address_lt_asym (x ∷ xs) (y ∷ ys) h = ground (arith, address_lt_asym xs ys)

address_lt_total :
    (a b : Address) → length a ≡ length b → address_lt a b ≡ false → address_lt b a ≡ false → a ≡ b
unfolding address_lt
address_lt_total [] [] len h k = refl
address_lt_total [] (y ∷ ys) len h k = absurd (omega arith)
address_lt_total (x ∷ xs) [] len h k = absurd (omega arith)
address_lt_total (x ∷ xs) (y ∷ ys) len h k = ground (arith, address_lt_total xs ys)

address_lt_trans :
    (a b c : Address) → address_lt a b ≡ true → address_lt b c ≡ true → address_lt a c ≡ true
unfolding address_lt
address_lt_trans [] b c h k = cc
address_lt_trans (x ∷ xs) [] c h k = cc
address_lt_trans (x ∷ xs) (y ∷ ys) [] h k = cc
address_lt_trans (x ∷ xs) (y ∷ ys) (z ∷ zs) h k = ground (arith, address_lt_trans xs ys zs)

-- An address that is below one of two others and not below the second tells their order.
address_lt_between :
    (a b c : Address)
    → length a ≡ length b
    → address_lt c b ≡ true
    → address_lt c a ≡ false
    → (address_lt a b ≡ true) × (address_lt b a ≡ false)
address_lt_between a b c len below above = elim (Bool-cases (address_lt b a)) [
  | inl ba ↦ absurd (cc (sym above ∙ address_lt_trans c b a below ba))
  | inr ab' ↦ elim (Bool-cases (address_lt a b)) [
    | inl ab ↦ (ab, ab')
    | inr none' ↦
        let same = address_lt_total a b len none' ab' in
        absurd (cc (sym above ∙ ap (address_lt c) same ∙ below))
  ]
]

insert_first :
    (a b : Address) (l : List Address)
    → length a ≡ length b
    → (if address_lt b a then b ∷ a ∷ l else a ∷ b ∷ l)
      ≡ (if address_lt a b then a ∷ b ∷ l else b ∷ a ∷ l)
insert_first a b l len = elim (Bool-cases (address_lt b a)) [
  | inl ba ↦ rw (ba, address_lt_asym b a ba)
  | inr ab' ↦ elim (Bool-cases (address_lt a b)) [
    | inl ab ↦ rw (ab', ab)
    | inr none' ↦
        let same = address_lt_total a b len none' ab' in
        rw (ab', none') (ap (λ x. x ∷ b ∷ l) same ∙ ap (λ x. b ∷ x ∷ l) (sym same))
  ]
]

insert_swap :
    (a b : Address) (l : List Address)
    → length a ≡ length b
    → insert_sorted a (insert_sorted b l) ≡ insert_sorted b (insert_sorted a l)
unfolding insert_sorted
insert_swap a b [] len = insert_first a b [] len
insert_swap a b (c ∷ l) len = elim (Bool-cases (address_lt c b)) [
  | inl cb ↦ elim (Bool-cases (address_lt c a)) [
    | inl ca ↦ rw (insert_sorted, cb, ca, cb) (ap (λ x. c ∷ x) (insert_swap a b l len))
    | inr ca ↦
        let (ab, ba) = address_lt_between a b c len cb ca in rw (insert_sorted, cb, ca, ab, cb)
  ]
  | inr cb ↦ elim (Bool-cases (address_lt c a)) [
    | inl ca ↦
        let (ba, ab) = address_lt_between b a c (sym len) ca cb in
        rw (insert_sorted, cb, ca, ba, cb)
    | inr ca ↦ rw (insert_sorted, cb, ca, cb) (insert_first a b (c ∷ l) len)
  ]
]

-- The sort of the addresses
unfoldable pub sort_addresses : List Address → List Address
sort_addresses [] = []
sort_addresses (a ∷ l) = insert_sorted a (sort_addresses l)

-- The sorted list does not depend on the order of the addresses.
sort_swap :
    (front : List Address) (a b : Address) (l : List Address)
    → length a ≡ length b
    → sort_addresses (front ++ a ∷ b ∷ l) ≡ sort_addresses (front ++ b ∷ a ∷ l)
unfolding sort_addresses
sort_swap [] a b l len = insert_swap a b (sort_addresses l) len
sort_swap (x ∷ front) a b l len = ap (insert_sorted x) (sort_swap front a b l len)

lookup_swap :
    (front rest : Map Address Account) (a b k : Address) (x y : Account)
    → a ≢ b
    → lookup k (front ++ (a, x) ∷ (b, y) ∷ rest) ≡ lookup k (front ++ (b, y) ∷ (a, x) ∷ rest)
unfolding lookup
lookup_swap [] rest a b k x y apart = ground (arith, bytes_beq_iff a k, bytes_beq_iff b k)
lookup_swap ((j, z) ∷ front) rest a b k x y apart =
    ground (arith, lookup_swap front rest a b k x y apart)

keys-append : (front m : Map Address Account) → keys (front ++ m) ≡ keys front ++ keys m
keys-append [] m = refl
keys-append ((j, z) ∷ front) m = ap (λ l. j ∷ l) (keys-append front m)

module _ (prims : Primitives) where
  -- The loop over the sorted addresses: an account whose encoding fails is left out.
  unfoldable pub combine : Map Address Account → List Address → Result Bytes
  combine accounts [] = ok []
  combine accounts (addr ∷ addrs) = elim (lookup addr accounts) [
    | none ↦ panic nil_dereference
    | some acc ↦ elim (prims.encode_account acc) [
      | err e ↦ combine accounts addrs
      | panic p ↦ panic p
      | ok encoded ↦
          combine accounts addrs >>= λ rest. ok (address_to_slice addr ++ encoded ++ rest)
    ]
  ]

  -- `StateRoot`
  unfoldable pub state_root : WorldState → Result Hash
  state_root ws = combine ws.accounts (sort_addresses (keys ws.accounts)) >>= λ combined.
      ok (prims.host.sha256 combined)

  combine_cong :
      (m m' : Map Address Account) (l : List Address)
      → ((a : Address) → lookup a m ≡ lookup a m')
      → combine m l ≡ combine m' l
  unfolding combine
  combine_cong m m' [] same = refl
  combine_cong m m' (a ∷ l) same =
      let rest_same = combine_cong m m' l same in
      elim (Option-cases (lookup a m')) [
        | inl absent ↦ rw (combine, same a, absent)
        | inr (acc, present) ↦ elim (Result-cases (prims.encode_account acc)) [
          | inl (encoded, good) ↦
              rw (combine, same a, present, good)
                (ap (λ (r : Result Bytes). r >>= λ rest. ok (address_to_slice a ++ encoded ++ rest))
                  rest_same)
          | inr (inl (e, bad)) ↦ rw (combine, same a, present, bad) rest_same
          | inr (inr (p, bad)) ↦ rw (combine, same a, present, bad)
        ]
      ]

  -- The state root stays when two neighbours in the order of the map, whose addresses differ and have one
  -- length, are swapped, for an encoding that is a function of the account.
  pub state_root-swap :
      (ws : WorldState) (front rest : Map Address Account) (a b : Address) (x y : Account)
      → length a ≡ length b
      → a ≢ b
      → state_root (record ws { accounts = front ++ (a, x) ∷ (b, y) ∷ rest })
        ≡ state_root (record ws { accounts = front ++ (b, y) ∷ (a, x) ∷ rest })
  unfolding state_root
  state_root-swap ws front rest a b x y len apart =
      let left : Map Address Account = front ++ (a, x) ∷ (b, y) ∷ rest in
      let right : Map Address Account = front ++ (b, y) ∷ (a, x) ∷ rest in
      let sorted : sort_addresses (keys left) ≡ sort_addresses (keys right) =
        ap sort_addresses (keys-append front ((a, x) ∷ (b, y) ∷ rest))
        ∙ sort_swap (keys front) a b (keys rest) len
        ∙ ap sort_addresses (sym (keys-append front ((b, y) ∷ (a, x) ∷ rest))) in
      ap (λ (r : Result Bytes). r >>= λ combined. ok (prims.host.sha256 combined))
        (combine_cong left right (sort_addresses (keys left))
            (λ k. lookup_swap front rest a b k x y apart)
          ∙ ap (combine right) sorted)
