-- ===== src/Tests/Nodes.antt =====
-- A node over the store in memory, with encodings of a few values, and a network that is the list of
-- what was sent.
use blockz.Prelude.{
  Bool, true, false, ◌&&◌, ◌≡◌, refl, sym, ap, List, [], ◌∷◌, none, some, replicate, if◌then◌else◌,
  ◌=?◌, nat_eq, bytes_eq, bytes_beq_iff, arith, Bool-cases, inl, inr,
}
use blockz.Result.{Result, ok, err, codec_failure, database_failure}
use blockz.Map.{Map, lookup, insert}
use blockz.Map.Laws.{lookup-insert}
use blockz.Types.{Bytes}
use blockz.Core.Data.{Transaction, Header, Block, Primitives}
use blockz.Core.Data.Equality.{
  transaction_eq, transaction_beq_iff, signature_eq, option_eq, option_beq_iff, point_eq,
}
use blockz.Core.Codec.{Codec, sent_tx, sent_block}
use blockz.Core.Storage.LevelDb.{Database}
use blockz.Tests.{test_prims, test_tx, test_block}

-- The only transaction and the only block that have an encoding
abbrev pub known_tx : Transaction
known_tx = record test_tx { hash = replicate 32 2 }

abbrev pub known_block : Block
known_block = record (test_block 1 (known_tx ∷ [])) { hash = replicate 32 1 }

-- As a gob carries them
abbrev pub sent_known_tx : Transaction
sent_known_tx = sent_tx known_tx

abbrev pub sent_known : Block
sent_known = sent_block known_block

-- One byte, which is the data hash of the block.
abbrev pub encode_known_tx : Transaction → Result Bytes
encode_known_tx tx = if sent_tx tx =? sent_known_tx then ok (0 ∷ []) else err codec_failure

abbrev pub net_prims : Primitives
net_prims = record test_prims { encode_tx = encode_known_tx }

unfoldable pub header_beq : Header → Header → Bool
header_beq a b =
    (a.version =? b.version)
    && ((a.data_hash =? b.data_hash)
        && ((a.prev_block_hash =? b.prev_block_hash)
            && ((a.state_root =? b.state_root)
                && ((a.height =? b.height)
                    && ((a.timestamp =? b.timestamp)
                        && ((a.nonce =? b.nonce)
                            && ((a.difficulty =? b.difficulty) && (a.coinbase =? b.coinbase))))))))

header_beq_sound : (a b : Header) → header_beq a b ≡ true → a ≡ b
unfolding header_beq
header_beq_sound a b h = ground (
  arith,
  bytes_beq_iff a.data_hash b.data_hash,
  bytes_beq_iff a.prev_block_hash b.prev_block_hash,
  bytes_beq_iff a.state_root b.state_root,
  bytes_beq_iff a.coinbase b.coinbase,
)

-- Whether a block is the known one.
unfoldable pub is_known_shape : List Transaction → List Header → Bool
is_known_shape (tx ∷ []) [] = tx =? sent_known_tx
is_known_shape txx evidence = false

is_known_shape_sound :
    (txx : List Transaction) (evidence : List Header)
    → is_known_shape txx evidence ≡ true
    → (txx ≡ sent_known_tx ∷ []) × (evidence ≡ [])
unfolding is_known_shape
is_known_shape_sound [] evidence h = absurd (cc h)
is_known_shape_sound (tx ∷ []) [] h =
    (ap (λ t. t ∷ []) ((transaction_beq_iff tx sent_known_tx).0 h), refl)
is_known_shape_sound (tx ∷ []) (e ∷ es) h = absurd (cc h)
is_known_shape_sound (tx ∷ t ∷ ts) evidence h = absurd (cc h)

unfoldable pub is_known : Block → Bool
is_known b =
    header_beq b.header sent_known.header
    && (is_known_shape b.transactions b.evidence
        && ((b.validator.key =? sent_known.validator.key)
            && ((b.signature =? sent_known.signature) && (b.hash =? sent_known.hash))))

and_inv : (a b : Bool) → (a && b) ≡ true → (a ≡ true) × (b ≡ true)
and_inv true b h = (refl, h)
and_inv false b h = absurd (cc h)

is_known_sound : (b : Block) → is_known b ≡ true → b ≡ sent_known
unfolding is_known
is_known_sound b h =
    let (head, h₁) = and_inv (header_beq b.header sent_known.header) _ h in
    let (shape, h₂) = and_inv (is_known_shape b.transactions b.evidence) _ h₁ in
    let (validator, h₃) = and_inv (b.validator.key =? sent_known.validator.key) _ h₂ in
    let (signed, hashed) = and_inv (b.signature =? sent_known.signature) _ h₃ in
    let (txx, evidence) = is_known_shape_sound b.transactions b.evidence shape in
    let header = header_beq_sound b.header sent_known.header head in
    let key = (option_beq_iff b.validator.key sent_known.validator.key).0 validator in
    let sig = (option_beq_iff b.signature sent_known.signature).0 signed in
    let hash = (bytes_beq_iff b.hash sent_known.hash).0 hashed in
    λ i. record {
      header = header i;
      transactions = txx i;
      evidence = evidence i;
      validator = record { key = key i };
      signature = sig i;
      hash = hash i;
    }

unfoldable pub encode_known : Block → Result Bytes
encode_known b = if is_known (sent_block b) then ok (9 ∷ []) else err codec_failure

pub decode_encode_known :
    (b : Block) (bytes : Bytes) → encode_known b ≡ ok bytes → ok sent_known ≡ ok (sent_block b)
unfolding encode_known
decode_encode_known b bytes h = elim (Bool-cases (is_known (sent_block b))) [
  | inl known ↦ ap ok (sym (is_known_sound (sent_block b) known))
  | inr other ↦ absurd (cc (rw (encode_known, other) at h))
]

pub decode_encode_known_tx :
    (tx : Transaction) (bytes : Bytes)
    → encode_known_tx tx ≡ ok bytes
    → ok sent_known_tx ≡ ok (sent_tx tx)
decode_encode_known_tx tx bytes h = elim (Bool-cases (sent_tx tx =? sent_known_tx)) [
  | inl known ↦ ap ok (sym ((transaction_beq_iff (sent_tx tx) sent_known_tx).0 known))
  | inr other ↦ absurd (cc (rw (other) at h))
]

abbrev pub test_codec : Codec net_prims
test_codec = record {
  decode_tx = λ bytes. ok sent_known_tx;
  encode_block = encode_known;
  decode_block = λ bytes. ok sent_known;
  decode_encode_tx = λ tx {bytes} h. decode_encode_known_tx tx bytes h;
  decode_encode_block = λ b {bytes} h. decode_encode_known b bytes h;
}

-- A map for the database
unfoldable pub db_put : Map Bytes Bytes → Bytes → Bytes → Map Bytes Bytes × Result (Unit {0})
db_put d k v = (insert k v d, ok tt)

unfoldable pub db_get : Map Bytes Bytes → Bytes → Result Bytes
db_get d k = elim (lookup k d) [ none ↦ err database_failure | some v ↦ ok v ]

pub db_get-put :
    (d d' : Map Bytes Bytes) (k v : Bytes)
    → db_put d k v ≡ (d', ok tt)
    → (j : Bytes) → db_get d' j ≡ (if k =? j then ok v else db_get d j)
unfolding db_put db_get
db_get-put d d' k v done j =
    rw (← ap (λ (p : Map Bytes Bytes × Result (Unit {0})). p.0) done)
      (ground (arith, lookup-insert k j v d))

abbrev pub test_db : Database (Map Bytes Bytes)
test_db = record { put = db_put; get = db_get; get-put = db_get-put }
