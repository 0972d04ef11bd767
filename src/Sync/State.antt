-- ===== src/Sync/State.antt =====
-- sync/state.rs: what a peer keeps about another, and the part of it that is stored.
pub mod RoundTrip
use automerge_r.Common.{
  ℕ, Bool, true, false, List, [], ◌∷◌, ◌++◌, Option, none, some, ◌==◌, ◌||◌, not, if◌then◌else◌,
  Result, ok, err, ◌>>=◌,
}
use automerge_r.Parse.Input.{Input, Parser, ParseError, error, incomplete, new, take_1}
use automerge_r.Parse.Leb128.{FromLeb, LebError}
use automerge_r.Parse.Leb128.Writer.{Writer}
use automerge_r.Parse.Combinators.{length_prefixed, change_hash}
use automerge_r.Sync.Bloom.{ChangeHash}
use automerge_r.Sync.Capability.{Capability, message_v1, message_v2, unknown}
use automerge_r.Sync.Message.{Have, encode_hashes}

abbrev pub sync_state_type : ℕ
sync_state_type = 0x43

pub data DecodeError : Type 0 where
  bad_leb128 : DecodeError
  wrong_type : List ℕ → ℕ → DecodeError
  not_enough_input : DecodeError

instance abbrev pub state_from_leb : FromLeb DecodeError
state_from_leb = record { from = λ _. bad_leb128 }

-- `sent_hashes` is a set, here the list of its elements.
pub record State : Type 0 where
  pub shared_heads : List ChangeHash
  pub last_sent_heads : List ChangeHash
  pub their_heads : Option (List ChangeHash)
  pub their_need : Option (List ChangeHash)
  pub their_have : Option (List Have)
  pub sent_hashes : List ChangeHash
  pub in_flight : Bool
  pub have_responded : Bool
  pub their_capabilities : Option (List Capability)

abbrev pub new_state : State
new_state = record {
  shared_heads = [];
  last_sent_heads = [];
  their_heads = none;
  their_need = none;
  their_have = none;
  sent_hashes = [];
  in_flight = false;
  have_responded = false;
  their_capabilities = none;
}

-- The state that is read back keeps the shared heads and forgets the session.
abbrev pub restored : List ChangeHash → State
restored shared_heads = record new_state { shared_heads = shared_heads; their_have = some [] }

unfoldable pub encode : Writer → State → List ℕ
encode w s = encode_hashes w (sync_state_type ∷ []) s.shared_heads

unfoldable pub parse : Parser State DecodeError
unfolding take_1 length_prefixed change_hash
parse input = do
  (i, record_type) ← take_1 input
  if not (record_type == sync_state_type)
      then err (error (wrong_type (sync_state_type ∷ []) record_type))
      else length_prefixed change_hash i >>= λ p. ok (p.0, restored p.1)

unfoldable pub decode : List ℕ → Result DecodeError State
unfolding parse
decode input = elim (parse (new input)) [
  | ok (_, state) ↦ ok state
  | err (incomplete _) ↦ err not_enough_input
  | err (error e) ↦ err e
]

abbrev is_v2 : Capability → Bool
is_v2 message_v1 = false
is_v2 message_v2 = true
is_v2 (unknown v) = false

unfoldable pub has_v2 : List Capability → Bool
has_v2 [] = false
has_v2 (cap ∷ caps) = is_v2 cap || has_v2 caps

unfoldable pub supports_v2_messages : State → Bool
unfolding has_v2
supports_v2_messages s = elim s.their_capabilities [ none ↦ false | some caps ↦ has_v2 caps ]
