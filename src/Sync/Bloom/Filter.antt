-- ===== src/Sync/Bloom/Filter.antt =====
-- sync/bloom.rs: a filter has no false negatives.
use automerge_r.Common.{
  ℕ, ◌+◌, ◌*◌, ◌%◌, ◌^◌, ◌<◌, ◌≡◌, refl, ◌∙◌, true, List, [], ◌∷◌, some, length, replicate,
  length-replicate, All, All-replicate, All-map, arith, Option-cases, inl, inr,
}
use automerge_r.Sync.Bloom.{
  ChangeHash, BloomFilter, default_filter, bits_per_entry, probes_per_entry, bits_capacity,
  get_probes, set_bits, add_hash, contains_hash, add_hashes, from_hashes,
}
use automerge_r.Sync.Bloom.Codec.{IsWritten}
use automerge_r.Sync.Bloom.Bits.{
  bit_on, set_bits-bytes, length-set_bits, set_bits_keep, set_bits_on, check_probes-on,
}

-- The number of bits, as the source computes it.
abbrev pub modulo : BloomFilter → ℕ
modulo b = 8 * (length b.bits % 2 ^ 32) % 2 ^ 32

-- The filter has bits to probe.
pub record IsUsable (b : BloomFilter) : Type 0 where
  pub bytes : All (λ x. x < 256) b.bits
  pub positive : 0 < modulo b

record Contains (b : BloomFilter) (hash : ChangeHash) : Type 0 where
  probes : List ℕ
  found : get_probes b hash ≡ some probes
  all_on : All (λ q. bit_on b.bits q ≡ true) probes

get_probes-total :
    (b : BloomFilter) (hash : ChangeHash)
    → 0 < modulo b
    → (probes : List ℕ) × (get_probes b hash ≡ some probes)
unfolding get_probes
get_probes-total b hash h = elim (Option-cases (get_probes b hash)) [
  | inl none_found ↦ absurd (ground arith)
  | inr found ↦ found
]

get_probes-set :
    (b : BloomFilter) (bits : List ℕ) (hash : ChangeHash)
    → length bits ≡ length b.bits
    → get_probes (record b { bits = bits }) hash ≡ get_probes b hash
unfolding get_probes
get_probes-set b bits hash h = rw h

-- The filter after `add_hash`, whose probes are `ps`.
abbrev added : BloomFilter → List ℕ → BloomFilter
added b ps = record b { bits = set_bits b.bits ps }

added-IsUsable : (b : BloomFilter) (ps : List ℕ) → IsUsable b → IsUsable (added b ps)
added-IsUsable b ps u = record {
  bytes = set_bits-bytes ps b.bits u.bytes;
  positive = rw (length-set_bits ps b.bits) u.positive;
}

added-Contains :
    (b : BloomFilter) (ps : List ℕ) (hash : ChangeHash)
    → IsUsable b
    → Contains b hash
    → Contains (added b ps) hash
added-Contains b ps hash u c = record {
  probes = c.probes;
  found = get_probes-set b (set_bits b.bits ps) hash (length-set_bits ps b.bits) ∙ c.found;
  all_on = All-map c.probes (λ q h. set_bits_keep ps b.bits q u.bytes h) c.all_on;
}

added-Contains_self :
    (b : BloomFilter) (ps : List ℕ) (hash : ChangeHash)
    → IsUsable b
    → get_probes b hash ≡ some ps
    → Contains (added b ps) hash
added-Contains_self b ps hash u e = record {
  probes = ps;
  found = get_probes-set b (set_bits b.bits ps) hash (length-set_bits ps b.bits) ∙ e;
  all_on = set_bits_on ps b.bits u.bytes;
}

record Filled (b : BloomFilter) (done hashes : List ChangeHash) : Type 0 where
  filter : BloomFilter
  returned : add_hashes b hashes ≡ some filter
  entries : filter.num_entries ≡ b.num_entries
  per_entry : filter.num_bits_per_entry ≡ b.num_bits_per_entry
  per_hash : filter.num_probes ≡ b.num_probes
  size : length filter.bits ≡ length b.bits
  before : All (Contains filter) done
  new : All (Contains filter) hashes

add_hashes-Filled :
    (b : BloomFilter) (done hashes : List ChangeHash)
    → IsUsable b
    → All (Contains b) done
    → Filled b done hashes
unfolding add_hashes add_hash
add_hashes-Filled b done [] u h = record {
  filter = b;
  returned = refl;
  entries = refl;
  per_entry = refl;
  per_hash = refl;
  size = refl;
  before = h;
  new = tt;
}
add_hashes-Filled b done (hash ∷ hashes) u h =
    let (ps, e) = get_probes-total b hash u.positive in
    let kept = All-map done (λ x. added-Contains b ps x u) h in
    let r =
      add_hashes-Filled (added b ps) (hash ∷ done) hashes (added-IsUsable b ps u)
        (added-Contains_self b ps hash u e, kept) in
    record {
      filter = r.filter;
      returned = rw (e, add_hashes, add_hash) r.returned;
      entries = r.entries;
      per_entry = r.per_entry;
      per_hash = r.per_hash;
      size = r.size ∙ length-set_bits ps b.bits;
      before = r.before.1;
      new = (r.before.0, r.new);
    }

Contains-contains_hash :
    (b : BloomFilter) (hash : ChangeHash)
    → 0 < b.num_entries
    → Contains b hash
    → contains_hash b hash ≡ some true
unfolding contains_hash
Contains-contains_hash b hash h c =
    ground (arith, c.found, check_probes-on c.probes b.bits c.all_on)

-- The filter before any hash is added.
abbrev fresh : ℕ → BloomFilter
fresh n = record {
  num_entries = n;
  num_bits_per_entry = bits_per_entry;
  num_probes = probes_per_entry;
  bits = replicate (bits_capacity n bits_per_entry) 0;
}

fresh-IsUsable : (n : ℕ) → 0 < n → 10 * n + 7 < 2 ^ 32 → IsUsable (fresh n)
unfolding bits_capacity
fresh-IsUsable n pos h = record {
  bytes = All-replicate (λ x. x < 256) (bits_capacity n bits_per_entry) 0 (omega arith);
  positive = rw (length-replicate {A = ℕ} (bits_capacity n bits_per_entry) 0) (omega arith);
}

from_hashes-fresh :
    (hashes : List ChangeHash)
    → 10 * length hashes + 7 < 2 ^ 32
    → from_hashes hashes ≡ add_hashes (fresh (length hashes)) hashes
unfolding from_hashes
from_hashes-fresh hashes h = let e : length hashes % 2 ^ 32 ≡ length hashes = omega arith in rw e

-- The filter that `from_hashes` builds is one that `to_bytes` and `parse` carry over.
pub from_hashes-IsWritten :
    (hashes : List ChangeHash)
    → 10 * length hashes + 7 < 2 ^ 32
    → (b : BloomFilter) × (from_hashes hashes ≡ some b) × IsWritten b
unfolding add_hashes
from_hashes-IsWritten [] h = (
  default_filter,
  from_hashes-fresh [] h ∙ unfold bits_capacity in refl,
  record {
    entries = omega arith;
    per_entry = omega arith;
    probes = omega arith;
    capacity = unfold bits_capacity in refl;
    no_entries = λ _. refl;
  },
)
from_hashes-IsWritten (hash ∷ hashes) h =
    let all = hash ∷ hashes in
    let r =
      add_hashes-Filled (fresh (length all)) [] all (fresh-IsUsable (length all) (omega arith) h)
        tt in
    (
      r.filter,
      from_hashes-fresh all h ∙ r.returned,
      record {
        entries = omega (arith, r.entries);
        per_entry = omega (arith, r.per_entry);
        probes = omega (arith, r.per_hash);
        capacity =
            r.size
            ∙ length-replicate (bits_capacity (length all) bits_per_entry) 0
            ∙ rw (r.entries, r.per_entry);
        no_entries = λ e. absurd (omega (arith, r.entries));
      },
    )

-- A filter over fewer than some four hundred million hashes is built without a panic, and it
-- contains every one of them.
pub from_hashes-contains_hash :
    (hashes : List ChangeHash)
    → 10 * length hashes + 7 < 2 ^ 32
    → (b : BloomFilter) × (from_hashes hashes ≡ some b)
      × All (λ hash. contains_hash b hash ≡ some true) hashes
from_hashes-contains_hash [] h = (fresh 0, from_hashes-fresh [] h ∙ unfold add_hashes in refl, tt)
from_hashes-contains_hash (hash ∷ hashes) h =
    let all = hash ∷ hashes in
    let r =
      add_hashes-Filled (fresh (length all)) [] all (fresh-IsUsable (length all) (omega arith) h)
        tt in
    (
      r.filter,
      from_hashes-fresh all h ∙ r.returned,
      All-map all (λ x c. Contains-contains_hash r.filter x (omega (arith, r.entries)) c) r.new,
    )
