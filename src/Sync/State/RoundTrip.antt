-- ===== src/Sync/State/RoundTrip.antt =====
-- sync/state.rs: a stored state is read back.
use automerge_r.Common.{none, some, false, ◌≡◌, sym, List, [], ◌∷◌, ◌++◌, ok, append-nil, arith}
use automerge_r.Parse.Input.{new}
use automerge_r.Parse.Leb128.Writer.{Writer}
use automerge_r.Parse.Combinators.Reads.{Reads, Reads-bind, Reads-ok, Reads-cast, take_1-Reads}
use automerge_r.Sync.Message.RoundTrip.{
  AreHashes, list_bytes, hash_bytes, hashes-Reads, encode_hashes-bytes,
}
use automerge_r.Sync.Bloom.{ChangeHash}
use automerge_r.Sync.State.{State, restored, encode, parse, decode, state_from_leb}

parse-Reads :
    (w : Writer) (hashes : List ChangeHash)
    → AreHashes hashes
    → Reads parse ((0x43 ∷ []) ++ list_bytes w hash_bytes hashes) (restored hashes)
unfolding parse
parse-Reads w hashes h = Reads-bind _ (take_1-Reads 0x43) (
    Reads-cast (append-nil _) (Reads-bind _ (hashes-Reads w hashes h) (Reads-ok (restored hashes))))

-- What is stored of a state is its shared heads: decoding returns them with a fresh session, in
-- which no heads and hashes have been sent, nothing is in flight, nothing has been answered, and of
-- the peer only its have is known, an empty list.
pub state_decode-encode :
    (w : Writer) (s : State)
    → AreHashes s.shared_heads
    → decode (encode w s)
      ≡ ok (record {
        shared_heads = s.shared_heads;
        last_sent_heads = [];
        their_heads = none;
        their_need = none;
        their_have = some [];
        sent_hashes = [];
        in_flight = false;
        have_responded = false;
        their_capabilities = none;
      })
unfolding decode encode
state_decode-encode w s h =
    let bytes = (0x43 ∷ []) ++ list_bytes w hash_bytes s.shared_heads in
    rw (encode_hashes-bytes w s.shared_heads (0x43 ∷ []))
      (ground (arith, (parse-Reads w s.shared_heads h).run (new bytes) [] (sym (append-nil bytes))))
