-- ===== src/Sync/Message/RoundTrip.antt =====
-- sync.rs: a message that is encoded is decoded to itself.
use automerge_r.Common.{
  ℕ, ◌≡◌, ◌≢◌, refl, sym, ◌∙◌, List, [], ◌∷◌, ◌++◌, Option, none, some, length, ok, All, All-map,
  ==_false, append_assoc, append-nil, arith,
}
use automerge_r.Parse.Input.{new, take_n}
use automerge_r.Parse.Leb128.{FromLeb}
use automerge_r.Parse.Leb128.Writer.{Writer, IsU64, unsigned_shape}
use automerge_r.Parse.Combinators.{length_prefixed, length_prefixed_bytes, change_hash}
use automerge_r.Parse.Combinators.Reads.{
  Reads, ReadsEnd, Reads-bind, ReadsEnd-bind, Reads-ReadsEnd, Reads-ok, Reads-cast, ReadsEnd-map,
  is_empty-append, take_1-Reads, take_n-Reads, concat_map, length_prefixed-Reads,
  length_prefixed_bytes-Reads,
}
use automerge_r.Sync.Errors.{BloomParseError, bloom_from_leb, message_from_leb}
use automerge_r.Sync.Bloom.{ChangeHash, to_bytes}
use automerge_r.Sync.Bloom.Codec.{IsWritten, parse-to_bytes}
use automerge_r.Sync.MessageVersion
use automerge_r.Sync.MessageVersion.{MessageVersion, v1, v2}
use automerge_r.Sync.Capability
use automerge_r.Sync.Capability.{Capability, message_v1, message_v2, unknown}
use automerge_r.Sync.ChunkList
use automerge_r.Sync.ChunkList.{ChunkList}
use automerge_r.Sync.Message.{
  Have, Message, parse_have, parse_capabilities, parse, decode, encode_many, encode_hashes,
  encode_have, encode_change, encode,
}
use mathlib.Core.List.{foldl}
use mathlib.Core.Path.{subst}

-- What the types of the source give: a hash has 32 bytes, and lengths fit a u64.
abbrev pub IsHash : ChangeHash → Type 0
IsHash hash = length hash ≡ 32

abbrev pub AreHashes : List ChangeHash → Type 0
AreHashes hashes = IsU64 (length hashes) × All IsHash hashes

pub record IsHave (w : Writer) (h : Have) : Type 0 where
  pub hashes : AreHashes h.last_sync
  pub filter : IsWritten h.bloom
  pub size : IsU64 (length (to_bytes w h.bloom))

-- `Unknown` stands for the bytes that are no other capability.
abbrev pub IsCapability : Capability → Type 0
IsCapability message_v1 = Unit
IsCapability message_v2 = Unit
IsCapability (unknown v) = (v ≢ 1) × (v ≢ 2)

abbrev pub AreCapabilities : Option (List Capability) → Type 0
AreCapabilities none = Unit
AreCapabilities (some caps) = IsU64 (length caps) × All IsCapability caps

pub record IsSendable (w : Writer) (m : Message) : Type 0 where
  pub heads : AreHashes m.heads
  pub need : AreHashes m.need
  pub have : IsU64 (length m.have) × All (IsHave w) m.have
  pub changes : IsU64 (length m.changes) × All (λ c. IsU64 (length c)) m.changes
  pub capabilities : AreCapabilities m.supported_capabilities

-- What the parts of a message are written as.
abbrev pub list_bytes : {A : Type 0} → Writer → (A → List ℕ) → List A → List ℕ
list_bytes w enc xs = w.unsigned (length xs) ++ concat_map enc xs

abbrev pub hash_bytes : ChangeHash → List ℕ
hash_bytes hash = hash

abbrev have_bytes : Writer → Have → List ℕ
have_bytes w h =
    list_bytes w hash_bytes h.last_sync
    ++ (w.unsigned (length (to_bytes w h.bloom)) ++ to_bytes w h.bloom)

abbrev change_bytes : Writer → List ℕ → List ℕ
change_bytes w change = w.unsigned (length change) ++ change

abbrev capability_bytes : Capability → List ℕ
capability_bytes message_v1 = 1 ∷ []
capability_bytes message_v2 = 2 ∷ []
capability_bytes (unknown v) = v ∷ []

abbrev capabilities_bytes : Writer → Option (List Capability) → List ℕ
capabilities_bytes w none = []
capabilities_bytes w (some caps) = list_bytes w capability_bytes caps

abbrev message_bytes : Writer → Message → List ℕ
message_bytes w m =
    (MessageVersion.encode m.version ∷ [])
    ++ (list_bytes w hash_bytes m.heads
        ++ (list_bytes w hash_bytes m.need
            ++ (list_bytes w (have_bytes w) m.have
                ++ (list_bytes w (change_bytes w) m.changes
                    ++ capabilities_bytes w m.supported_capabilities))))

-- A loop that appends to the buffer writes the parts one after the other.
foldl-concat_map :
    {A : Type 0} (enc : A → List ℕ) (f : List ℕ → A → List ℕ) (xs : List A) (out : List ℕ)
    → ((buf : List ℕ) (x : A) → f buf x ≡ buf ++ enc x)
    → foldl f out xs ≡ out ++ concat_map enc xs
foldl-concat_map enc f [] out h = sym (append-nil out)
foldl-concat_map enc f (x ∷ xs) out h =
    foldl-concat_map enc f xs (f out x) h
    ∙ rw (h out x) (append_assoc out (enc x) (concat_map enc xs))

module _ (w : Writer) where
  encode_many-bytes :
      {A : Type 0} (enc : A → List ℕ) (f : List ℕ → A → List ℕ) (xs : List A) (out : List ℕ)
      → ((buf : List ℕ) (x : A) → f buf x ≡ buf ++ enc x)
      → encode_many w out xs f ≡ out ++ list_bytes w enc xs
  unfolding encode_many
  encode_many-bytes enc f xs out h =
      foldl-concat_map enc f xs (out ++ w.unsigned (length xs)) h
      ∙ append_assoc out (w.unsigned (length xs)) (concat_map enc xs)

  pub encode_hashes-bytes :
      (hashes : List ChangeHash) (buf : List ℕ)
      → encode_hashes w buf hashes ≡ buf ++ list_bytes w hash_bytes hashes
  unfolding encode_hashes
  encode_hashes-bytes hashes buf =
      encode_many-bytes hash_bytes (λ b h. b ++ h) hashes buf (λ b h. refl)

  encode_have-bytes : (buf : List ℕ) (h : Have) → encode_have w buf h ≡ buf ++ have_bytes w h
  unfolding encode_have
  encode_have-bytes buf h = simp (encode_hashes-bytes, append_assoc)

  encode_change-bytes :
      (buf change : List ℕ) → encode_change w buf change ≡ buf ++ change_bytes w change
  unfolding encode_change
  encode_change-bytes buf change = simp append_assoc

  capability-bytes :
      (buf : List ℕ) (cap : Capability) → Capability.encode cap buf ≡ buf ++ capability_bytes cap
  unfolding Capability.encode
  capability-bytes buf message_v1 = refl
  capability-bytes buf message_v2 = refl
  capability-bytes buf (unknown v) = refl

  haves-bytes :
      (buf : List ℕ) (hs : List Have)
      → encode_many w buf hs (encode_have w) ≡ buf ++ list_bytes w (have_bytes w) hs
  haves-bytes buf hs = encode_many-bytes (have_bytes w) (encode_have w) hs buf encode_have-bytes

  changes-bytes :
      (buf : List ℕ) (cs : ChunkList)
      → encode_many w buf cs (encode_change w) ≡ buf ++ list_bytes w (change_bytes w) cs
  changes-bytes buf cs =
      encode_many-bytes (change_bytes w) (encode_change w) cs buf encode_change-bytes

  capabilities-bytes :
      (o : Option (List Capability)) (buf : List ℕ)
      → ◌≡◌ {A = List ℕ}
          (elim o [
            | none ↦ buf
            | some caps ↦ encode_many w buf caps (λ b cap. Capability.encode cap b)
          ])
          (buf ++ capabilities_bytes w o)
  capabilities-bytes none buf = sym (append-nil buf)
  capabilities-bytes (some caps) buf =
      encode_many-bytes capability_bytes (λ b cap. Capability.encode cap b) caps buf
        capability-bytes

  encode-message_bytes : (m : Message) → encode w m ≡ message_bytes w m
  unfolding encode
  encode-message_bytes m =
      capabilities-bytes m.supported_capabilities _
      ∙ simp (encode_hashes-bytes, haves-bytes, changes-bytes, append_assoc)

version-Reads : (v : MessageVersion) → Reads MessageVersion.parse (MessageVersion.encode v ∷ []) v
unfolding MessageVersion.parse MessageVersion.encode
version-Reads v1 = Reads-bind _ (take_1-Reads 0x42) (Reads-ok v1)
version-Reads v2 = Reads-bind _ (take_1-Reads 0x43) (Reads-ok v2)

capability-Reads :
    (cap : Capability) → IsCapability cap → Reads Capability.parse (capability_bytes cap) cap
unfolding Capability.parse
capability-Reads message_v1 h = Reads-bind _ (take_1-Reads 1) (Reads-ok message_v1)
capability-Reads message_v2 h = Reads-bind _ (take_1-Reads 2) (Reads-ok message_v2)
capability-Reads (unknown v) h =
    Reads-bind _ (take_1-Reads v) (rw (==_false v 1 h.0, ==_false v 2 h.1) (Reads-ok (unknown v)))

hash-Reads : {E : Type 0} (hash : ChangeHash) → IsHash hash → Reads {E = E} change_hash hash hash
unfolding change_hash
hash-Reads {E} hash h = subst (λ n. Reads {E = E} (take_n n) hash hash) h (take_n-Reads hash)

module _ (w : Writer) where
  pub hashes-Reads :
      {E : Type 0} ⦃f : FromLeb E⦄ (hashes : List ChangeHash)
      → AreHashes hashes
      → Reads {E = E} (length_prefixed change_hash) (list_bytes w hash_bytes hashes) hashes
  hashes-Reads hashes (n, hs) =
      length_prefixed-Reads w change_hash hash_bytes hashes n (All-map hashes hash-Reads hs)

  have-Reads : (h : Have) → IsHave w h → Reads parse_have (have_bytes w h) h
  unfolding parse_have
  have-Reads h p = Reads-bind _ (hashes-Reads h.last_sync p.hashes) (
      Reads-cast (append-nil _) (
        Reads-bind _ (length_prefixed_bytes-Reads w (to_bytes w h.bloom) p.size)
          (rw (parse-to_bytes {E = BloomParseError} w h.bloom p.filter) (Reads-ok h))))

  chunks-Reads :
      (cs : ChunkList)
      → IsU64 (length cs) × All (λ c. IsU64 (length c)) cs
      → Reads ChunkList.parse (list_bytes w (change_bytes w) cs) cs
  unfolding ChunkList.parse
  chunks-Reads cs (n, hs) =
      length_prefixed-Reads w length_prefixed_bytes (change_bytes w) cs n
        (All-map cs (λ c h. length_prefixed_bytes-Reads w c h) hs)

  capabilities-ReadsEnd :
      (o : Option (List Capability))
      → AreCapabilities o
      → ReadsEnd parse_capabilities (capabilities_bytes w o) o
  unfolding parse_capabilities
  capabilities-ReadsEnd none h = record { run = λ i e. ground arith }
  capabilities-ReadsEnd (some caps) (n, hs) = record {
    run = λ i e.
        let r =
          length_prefixed-Reads w Capability.parse capability_bytes caps n
            (All-map caps capability-Reads hs) in
        let more =
          is_empty-append i (w.unsigned (length caps)) _ e (unsigned_shape w (length caps) n).1 in
        ground (arith, more, (Reads-ReadsEnd r).run i e);
  }

  parse-ReadsEnd : (m : Message) → IsSendable w m → ReadsEnd parse (message_bytes w m) m
  unfolding parse
  parse-ReadsEnd m s = ReadsEnd-bind _ (version-Reads m.version) (
      ReadsEnd-bind _ (hashes-Reads m.heads s.heads) (
        ReadsEnd-bind _ (hashes-Reads m.need s.need) (
          ReadsEnd-bind _
            (length_prefixed-Reads w parse_have (have_bytes w) m.have s.have.0
              (All-map m.have have-Reads s.have.1))
            (ReadsEnd-bind _ (chunks-Reads m.changes s.changes)
              (ReadsEnd-map _ (capabilities-ReadsEnd m.supported_capabilities s.capabilities))))))

  -- A message within the limits of its types is decoded from its encoding, whichever version it
  -- has and with or without capabilities.
  pub decode-encode : (m : Message) → IsSendable w m → decode (encode w m) ≡ ok m
  unfolding decode
  decode-encode m s =
      rw (encode-message_bytes w m)
        (ground (arith, (parse-ReadsEnd m s).run (new (message_bytes w m)) refl))
