-- ===== src/Sync/Document/Sets.antt =====
-- automerge.rs: what is in the lists of hashes that stand for sets, and in `get_missing_deps`.
use automerge_r.Common.{◌≡◌, refl, ◌∙◌, not, ◌&&◌, ◌||◌, List, [], ◌∷◌, ◌++◌, arith}
use automerge_r.Common.Hash.{
  ChangeHash, hash_eq, hash_mem, hash_insert, hash_filter, hash_mem-insert, hash_mem-append,
  hash_mem-filter,
}
use automerge_r.Graph.Types.{has_change}
use automerge_r.Sync.Document.{
  Document, insert_hash, sort, to_set, queue_deps, queue_hashes, get_missing_deps,
}

pub hash_mem-to_set :
    (k : ChangeHash) (set hs : List ChangeHash)
    → hash_mem k (to_set set hs) ≡ (hash_mem k set || hash_mem k hs)
unfolding to_set hash_mem
hash_mem-to_set k set [] = ground arith
hash_mem-to_set k set (h ∷ hs) =
    ground (arith, hash_mem-to_set k (hash_insert h set) hs, hash_mem-insert k h set)

hash_mem-insert_hash :
    (k h : ChangeHash) (hs : List ChangeHash)
    → hash_mem k (insert_hash h hs) ≡ (hash_eq k h || hash_mem k hs)
unfolding insert_hash hash_mem
hash_mem-insert_hash k h [] = ground arith
hash_mem-insert_hash k h (x ∷ hs) = ground (arith, hash_mem-insert_hash k h hs)

pub hash_mem-sort : (k : ChangeHash) (hs : List ChangeHash) → hash_mem k (sort hs) ≡ hash_mem k hs
unfolding sort hash_mem
hash_mem-sort k [] = refl
hash_mem-sort k (h ∷ hs) = ground (arith, hash_mem-insert_hash k h (sort hs), hash_mem-sort k hs)

-- `get_missing_deps` gives the dependencies of queued changes and the given heads that are neither
-- in the graph nor in the queue, and nothing else.
pub hash_mem-get_missing_deps :
    (doc : Document) (heads : List ChangeHash) (k : ChangeHash)
    → hash_mem k (get_missing_deps doc heads) ≡ (
        not (has_change doc.graph k)
        && not (hash_mem k (queue_hashes doc.queue))
        && (hash_mem k (queue_deps doc.queue) || hash_mem k heads))
unfolding get_missing_deps hash_mem has_change
hash_mem-get_missing_deps doc heads k =
    let known = λ (h : ChangeHash). not (has_change doc.graph h) in
    let queued = λ (h : ChangeHash). not (hash_mem h (queue_hashes doc.queue)) in
    let all = queue_deps doc.queue ++ heads in
    let set = to_set [] (hash_filter known all) in
    hash_mem-sort k (hash_filter queued set)
    ∙ hash_mem-filter queued k set
    ∙ ground (
      arith,
      hash_mem-to_set k [] (hash_filter known all),
      hash_mem-filter known k all,
      hash_mem-append k (queue_deps doc.queue) heads,
    )
