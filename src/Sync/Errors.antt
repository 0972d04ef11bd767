-- ===== src/Sync/Errors.antt =====
-- sync.rs and sync/bloom.rs: what reading a message can end in.
use automerge_r.Common.{ℕ, List}
use automerge_r.Parse.Leb128.{FromLeb, LebError}

-- `bloom::ParseError`
pub data BloomParseError : Type 0 where
  leb128 : LebError → BloomParseError

instance abbrev pub bloom_from_leb : FromLeb BloomParseError
bloom_from_leb = record { from = leb128 }

-- An error's text is kept as the error. Reading a message never ends in `ReadChangeOps`.
pub data ReadMessageError : Type 0 where
  wrong_type : List ℕ → ℕ → ReadMessageError
  parse_leb : LebError → ReadMessageError
  parse_bloom : BloomParseError → ReadMessageError
  not_enough_input : ReadMessageError

instance abbrev pub message_from_leb : FromLeb ReadMessageError
message_from_leb = record { from = parse_leb }
