-- ===== src/Sync/Capability.antt =====
-- sync.rs: a capability is one byte.
use automerge_r.Common.{ℕ, List, [], ◌∷◌, ◌++◌, ◌==◌, if◌then◌else◌, ok, ◌>>=◌}
use automerge_r.Parse.Input.{Parser, take_1}
use automerge_r.Sync.Errors.{ReadMessageError, message_from_leb}

pub data Capability : Type 0 where
  message_v1 message_v2 : Capability
  unknown : ℕ → Capability

unfoldable pub encode : Capability → List ℕ → List ℕ
encode message_v1 out = out ++ (0x01 ∷ [])
encode message_v2 out = out ++ (0x02 ∷ [])
encode (unknown v) out = out ++ (v ∷ [])

unfoldable pub parse : Parser Capability ReadMessageError
unfolding take_1
parse input = do
  (i, v) ← take_1 input
  if v == 0x01
      then ok (i, message_v1)
      else if v == 0x02
      then ok (i, message_v2)
      else ok (i, unknown v)
