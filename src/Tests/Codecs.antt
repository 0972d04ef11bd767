-- ===== src/Tests/Codecs.antt =====
-- Runs of the codecs: numbers, messages, states, filters, ids and cursors.
use automerge_r.Common.{
  ◌≡◌, ◌≢◌, refl, true, [], ◌∷◌, ◌++◌, none, some, length, replicate, ok, All, arith,
}
use automerge_r.Parse.Input.{Input, new, advance}
use automerge_r.Parse.Leb128.{LebError, leb_from_leb, leb128_u64}
use automerge_r.Parse.Leb128.Writer.{writer, write_fuel, IsU64}
use automerge_r.Parse.Leb128.RoundTrip.{leb128_u64-unsigned}
use automerge_r.Parse.Leb128.Canonical.{leb128_u64-canonical}
use automerge_r.Sync.Bloom
use automerge_r.Sync.Bloom.{ChangeHash, BloomFilter, default_filter, contains_hash, from_hashes}
use automerge_r.Sync.Bloom.Codec.{IsWritten, bitless, parse-to_bytes, contains_hash_panics}
use automerge_r.Sync.Bloom.Filter.{from_hashes-IsWritten, from_hashes-contains_hash}
use automerge_r.Sync.Capability.{message_v1, message_v2}
use automerge_r.Sync.MessageVersion.{v2}
use automerge_r.Sync.Message.{Message, default_have, decode, encode}
use automerge_r.Sync.Message.RoundTrip.{IsSendable, decode-encode}
use automerge_r.Sync.State
use automerge_r.Sync.State.{State, new_state, restored}
use automerge_r.Sync.State.RoundTrip.{state_decode-encode}

abbrev hash_one : ChangeHash
hash_one = replicate 32 7

abbrev hash_two : ChangeHash
hash_two = replicate 32 9

leb128_u64-unsigned_example :
    leb128_u64 {E = LebError} (new (0xac ∷ 0x02 ∷ 5 ∷ []))
    ≡ ok (advance (new (0xac ∷ 0x02 ∷ 5 ∷ [])) (5 ∷ []) 2, 300)
unfolding write_fuel
leb128_u64-unsigned_example =
    leb128_u64-unsigned writer 300 (new (0xac ∷ 0x02 ∷ 5 ∷ [])) (5 ∷ []) (omega arith) refl

abbrev followed : Input
followed = new (0xac ∷ 0x02 ∷ 5 ∷ [])

leb128_u64-canonical_example :
    IsU64 300
    × (followed.bytes ≡ writer.unsigned 300 ++ (5 ∷ []))
    × (advance followed (5 ∷ []) 2 ≡ advance followed (5 ∷ []) (length (writer.unsigned 300)))
unfolding leb128_u64 write_fuel
leb128_u64-canonical_example =
    leb128_u64-canonical {E = LebError} writer followed (advance followed (5 ∷ []) 2) 300
      (omega arith) refl

-- A padded number is refused.
padded_refused :
    leb128_u64 {E = LebError} (new (0x81 ∷ 0x00 ∷ []))
    ≢ ok (advance (new (0x81 ∷ 0x00 ∷ [])) [] 2, 1)
unfolding leb128_u64
padded_refused e = cc

default_filter-IsWritten : IsWritten default_filter
unfolding Bloom.bits_capacity
default_filter-IsWritten = record {
  entries = omega arith;
  per_entry = omega arith;
  probes = omega arith;
  capacity = refl;
  no_entries = λ e. refl;
}

abbrev message : Message
message = record {
  heads = hash_one ∷ [];
  need = hash_two ∷ [];
  have = default_have ∷ [];
  changes = (1 ∷ 2 ∷ 3 ∷ []) ∷ [];
  supported_capabilities = some (message_v1 ∷ message_v2 ∷ []);
  version = v2;
}

message-IsSendable : IsSendable writer message
unfolding Bloom.to_bytes
message-IsSendable = record {
  heads = (omega arith, (refl, tt));
  need = (omega arith, (refl, tt));
  have = (
    omega arith,
    (
      record { hashes = (omega arith, tt); filter = default_filter-IsWritten; size = omega arith },
      tt,
    ),
  );
  changes = (omega arith, (omega arith, tt));
  capabilities = (omega arith, (tt, (tt, tt)));
}

decode-encode_example : decode (encode writer message) ≡ ok message
decode-encode_example = decode-encode writer message message-IsSendable

abbrev synced : State
synced = record new_state {
  shared_heads = hash_one ∷ [];
  sent_hashes = hash_two ∷ [];
  in_flight = true;
}

state_decode-encode_example :
    State.decode (State.encode writer synced) ≡ ok (restored (hash_one ∷ []))
state_decode-encode_example = state_decode-encode writer synced (omega arith, (refl, tt))

from_hashes-contains_hash_example :
    (b : BloomFilter) × (from_hashes (hash_one ∷ hash_two ∷ []) ≡ some b)
    × All (λ hash. contains_hash b hash ≡ some true) (hash_one ∷ hash_two ∷ [])
from_hashes-contains_hash_example =
    from_hashes-contains_hash (hash_one ∷ hash_two ∷ []) (omega arith)

from_hashes-IsWritten_example :
    (b : BloomFilter) × (from_hashes (hash_one ∷ hash_two ∷ []) ≡ some b) × IsWritten b
from_hashes-IsWritten_example = from_hashes-IsWritten (hash_one ∷ hash_two ∷ []) (omega arith)

abbrev filter : BloomFilter
filter = record { num_entries = 1; num_bits_per_entry = 10; num_probes = 7; bits = 4 ∷ 2 ∷ [] }

filter-IsWritten : IsWritten filter
unfolding Bloom.bits_capacity
filter-IsWritten = record {
  entries = omega arith;
  per_entry = omega arith;
  probes = omega arith;
  capacity = refl;
  no_entries = λ e. absurd (omega arith);
}

parse-to_bytes_example :
    Bloom.parse {E = LebError} (new (Bloom.to_bytes writer filter))
    ≡ ok (
      advance (new (Bloom.to_bytes writer filter)) [] (length (Bloom.to_bytes writer filter)),
      filter,
    )
parse-to_bytes_example = parse-to_bytes writer filter filter-IsWritten

contains_hash_panics_example :
    (Bloom.parse {E = LebError} (new (Bloom.to_bytes writer (bitless 1 2)))
      ≡ ok (
        advance
            (new (Bloom.to_bytes writer (bitless 1 2)))
            []
            (length (Bloom.to_bytes writer (bitless 1 2))),
        bitless 1 2,
      ))
    × (contains_hash (bitless 1 2) hash_one ≡ none)
contains_hash_panics_example =
    contains_hash_panics writer 1 2 hash_one (omega arith) (omega arith) (omega arith)
