-- ===== src/Core/Evm/Storage.antt =====
-- Contract storage through the machine: a load after a store.
use blockz.Prelude.{
  ℕ, ◌<◌, ◌≡◌, ◌≢◌, sym, ap, ◌∙◌, false, [], ◌∷◌, ◌=?◌, bytes_eq, bytes_beq_iff, ◌==◌, length,
  arith, pos, Bool-cases, inl, inr, beq_refl,
}
use blockz.Result.{ok}
use blockz.Types.{Bytes, Hash}
use blockz.Core.StateDb.{StateDb, stored}
use blockz.Core.Evm.Word.{
  mask, mask_id, word_mod, set_bytes, bytes_of, set_bytes-bytes_of, left_pad-bytes_of,
}
use blockz.Core.Evm.Stack.{Stack, push, pop}
use blockz.Core.Evm.Machine.{Host, Evm, continue, set_stack, sload, sstore}
use blockz.Core.Evm.Exec.{key_hash, value_bytes, exec_sload, exec_sstore}
use blockz.Core.Evm.Run.{exec}

set_bytes-value_bytes : (val : ℕ) → set_bytes (value_bytes val) ≡ val
unfolding value_bytes
set_bytes-value_bytes val = elim (Bool-cases (length (bytes_of val) == 0)) [
  | inl empty ↦
      rw (value_bytes, empty)
        (zero_value (bytes_of val) (ground (arith, empty)) (set_bytes-bytes_of val))
  | inr some_bytes ↦ rw (value_bytes, some_bytes) (set_bytes-bytes_of val)
]
  where
    zero_value : (b : Bytes) → length b ≡ 0 → set_bytes b ≡ val → set_bytes (0 ∷ []) ≡ val
    zero_value [] none_there e = unfold set_bytes in e
    zero_value (x ∷ b) none_there e = absurd (omega arith)

-- A 256-bit word has a storage key.
key_hash_lem : (host : Host) (key : ℕ) → key < word_mod → (h : Hash) × (key_hash host key ≡ ok h)
unfolding key_hash
key_hash_lem host key small =
    let (b, padded, _, _) = left_pad-bytes_of key small in (host.sha256 b, rw padded)

module _ {S : Type 0} ⦃db : StateDb S⦄ (host : Host) where
  -- The word that a load puts on the stack for a key's hash.
  loaded : S → Evm S → Hash → ℕ
  loaded state evm h = mask (pos (set_bytes (stored (db.get_account_state state evm.contract h))))

  sload_lem :
      (key : ℕ) (s : Stack) (evm : Evm S) {h : Hash}
      → key_hash host key ≡ ok h
      → exec host sload (set_stack (key ∷ s) evm)
        ≡ continue (set_stack (loaded evm.state evm h ∷ s) evm)
  unfolding exec exec_sload pop push loaded
  sload_lem key s evm hashed = rw hashed

  loaded_self :
      (state : S) (evm : Evm S) (h : Hash) (val : ℕ)
      → val < word_mod
      → loaded (db.set_account_state state evm.contract h (value_bytes val)) evm h ≡ val
  unfolding loaded
  loaded_self state evm h val small =
      rw
        (
          db.get-set state evm.contract evm.contract h h (value_bytes val),
          beq_refl evm.contract,
          beq_refl h,
          set_bytes-value_bytes val,
        )
        (mask_id val small)

  loaded_other :
      (state : S) (evm : Evm S) (h j : Hash) (b : Bytes)
      → h ≢ j
      → loaded (db.set_account_state state evm.contract h b) evm j ≡ loaded state evm j
  unfolding loaded
  loaded_other state evm h j b apart = rw (
    db.get-set state evm.contract evm.contract h j b,
    beq_refl evm.contract,
    (let no : (h =? j) ≡ false = ground (arith, bytes_beq_iff h j) in no),
  )

  -- For keys and a value that are words, `SSTORE` of the value under a key goes on. `SLOAD` of
  -- that key then puts the value on the stack, and `SLOAD` of another key, which hashes otherwise,
  -- puts there what it would have put before the store.
  pub sload-sstore :
      (key val other : ℕ) (s : Stack) (evm : Evm S)
      → key < word_mod
      → val < word_mod
      → other < word_mod
      → key_hash host key ≢ key_hash host other
      → (evm' : Evm S) × (exec host sstore (set_stack (key ∷ val ∷ s) evm) ≡ continue evm')
        × (exec host sload (set_stack (key ∷ s) evm') ≡ continue (set_stack (val ∷ s) evm'))
        × (v : ℕ) × (exec host sload (set_stack (other ∷ s) evm) ≡ continue (set_stack (v ∷ s) evm))
        × (exec host sload (set_stack (other ∷ s) evm') ≡ continue (set_stack (v ∷ s) evm'))
  unfolding exec exec_sstore pop loaded
  sload-sstore key val other s evm hk hv ho apart =
      let (h, hashed) = key_hash_lem host key hk in
      let (j, other_hashed) = key_hash_lem host other ho in
      let evm' : Evm S = record evm {
        stack = s;
        state = db.set_account_state evm.state evm.contract h (value_bytes val);
      } in
      (
        evm',
        rw hashed,
        sload_lem key s evm' hashed
            ∙ ap (λ (v : ℕ). continue (set_stack (v ∷ s) evm'))
                (loaded_self evm.state evm h val hv),
        loaded evm.state evm j,
        sload_lem other s evm other_hashed,
        sload_lem other s evm' other_hashed
            ∙ ap (λ (v : ℕ). continue (set_stack (v ∷ s) evm'))
                (loaded_other evm.state evm h j (value_bytes val)
                  (λ same. apart (hashed ∙ ap (λ (x : Hash). ok x) same ∙ sym other_hashed))),
      )
