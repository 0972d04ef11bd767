-- ===== src/Sync/Message.antt =====
-- sync.rs: the messages of the protocol, and how they are written and read.
pub mod RoundTrip
use automerge_r.Common.{
  ℕ, Bool, true, false, List, [], ◌∷◌, ◌++◌, Option, none, some, ◌==◌, if◌then◌else◌, length,
  Result, ok, err, ◌>>=◌, map_err,
}
use automerge_r.Parse.Input.{
  Input, Parser, ParseResult, ParseError, error, incomplete, lift, new, is_empty, take_1,
}
use automerge_r.Parse.Leb128.Writer.{Writer}
use automerge_r.Parse.Combinators.{length_prefixed, length_prefixed_bytes, change_hash}
use automerge_r.Sync.Bloom.{ChangeHash, BloomFilter, default_filter, to_bytes}
use automerge_r.Sync.Bloom
use mathlib.Core.List.{foldl}
use automerge_r.Sync.Errors.{
  BloomParseError, bloom_from_leb, ReadMessageError, message_from_leb, parse_bloom,
  not_enough_input,
}
use automerge_r.Sync.MessageVersion
use automerge_r.Sync.MessageVersion.{MessageVersion}
use automerge_r.Sync.Capability
use automerge_r.Sync.Capability.{Capability}
use automerge_r.Sync.ChunkList
use automerge_r.Sync.ChunkList.{ChunkList}

pub record Have : Type 0 where
  pub last_sync : List ChangeHash
  pub bloom : BloomFilter

abbrev pub default_have : Have
default_have = record { last_sync = []; bloom = default_filter }

pub record Message : Type 0 where
  pub heads : List ChangeHash
  pub need : List ChangeHash
  pub have : List Have
  pub changes : ChunkList
  pub supported_capabilities : Option (List Capability)
  pub version : MessageVersion

unfoldable pub parse_have : Parser Have ReadMessageError
unfolding length_prefixed change_hash length_prefixed_bytes Bloom.parse
parse_have input = do
  (i₁, last_sync) ← length_prefixed change_hash input
  (i₂, bloom_bytes) ← length_prefixed_bytes i₁
  (_, bloom) ← map_err (lift parse_bloom) (Bloom.parse {E = BloomParseError} (new bloom_bytes))
  ok (i₂, record { last_sync = last_sync; bloom = bloom })

-- The capabilities stand at the end of a message, if it has any.
unfoldable pub parse_capabilities : Parser (Option (List Capability)) ReadMessageError
unfolding length_prefixed Capability.parse
parse_capabilities i =
    if is_empty i
    then ok (i, none)
    else length_prefixed Capability.parse i >>= λ p. ok (p.0, some p.1)

unfoldable pub parse : Parser Message ReadMessageError
unfolding MessageVersion.parse length_prefixed change_hash parse_have ChunkList.parse
    parse_capabilities
parse input = do
  (i₁, message_version) ← MessageVersion.parse input
  (i₂, heads) ← length_prefixed change_hash i₁
  (i₃, need) ← length_prefixed change_hash i₂
  (i₄, have) ← length_prefixed parse_have i₃
  (i₅, changes) ← ChunkList.parse i₄
  (i₆, supported_capabilities) ← parse_capabilities i₅
  ok (
    i₆,
    record {
      heads = heads;
      need = need;
      have = have;
      changes = changes;
      supported_capabilities = supported_capabilities;
      version = message_version;
    },
  )

unfoldable pub decode : List ℕ → Result ReadMessageError Message
unfolding parse
decode input = elim (parse (new input)) [
  | ok (_, msg) ↦ ok msg
  | err (error e) ↦ err e
  | err (incomplete _) ↦ err not_enough_input
]

module _ (w : Writer) where
  unfoldable pub encode_many : {A : Type 0} → List ℕ → List A → (List ℕ → A → List ℕ) → List ℕ
  encode_many out data' f = foldl f (out ++ w.unsigned (length data')) data'

  -- The source checks in a debug build that the hashes are sorted.
  unfoldable pub encode_hashes : List ℕ → List ChangeHash → List ℕ
  unfolding encode_many
  encode_hashes buf hashes = encode_many buf hashes (λ buf hash. buf ++ hash)

  unfoldable pub encode_have : List ℕ → Have → List ℕ
  unfolding encode_hashes to_bytes
  encode_have buf h =
      encode_hashes buf h.last_sync
      ++ w.unsigned (length (to_bytes w h.bloom))
      ++ to_bytes w h.bloom

  unfoldable pub encode_change : List ℕ → List ℕ → List ℕ
  encode_change buf change = buf ++ w.unsigned (length change) ++ change

  unfoldable pub encode : Message → List ℕ
  encode m =
      let buf₀ = MessageVersion.encode m.version ∷ [] in
      let buf₁ = encode_hashes buf₀ m.heads in
      let buf₂ = encode_hashes buf₁ m.need in
      let buf₃ = encode_many buf₂ m.have encode_have in
      let buf₄ = encode_many buf₃ m.changes encode_change in
      elim m.supported_capabilities [
        | none ↦ buf₄
        | some caps ↦ encode_many buf₄ caps (λ buf cap. Capability.encode cap buf)
      ]
