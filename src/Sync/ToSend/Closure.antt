-- ===== src/Sync/ToSend/Closure.antt =====
-- sync.rs: the hashes to send are closed under dependents.
use automerge_r.Common.{
  ℕ, zero, suc, ◌+◌, ◌≤◌, ◌≡◌, ◌⊎◌, inl, inr, refl, sym, true, false, List, [], ◌∷◌, some,
  if◌then◌else◌, length, arith, Bool-cases,
}
use automerge_r.Common.Hash.{ChangeHash, hash_eq, hash_eq_iff, hash_mem, hash_mem-eq}
use automerge_r.Sync.Document.{to_set}
use automerge_r.Sync.Document.Sets.{hash_mem-to_set}
use automerge_r.Sync.ToSend.{dependents_of, push_new, close, with_dependents}

abbrev pub Edges : Type 0
Edges = List (ChangeHash × ChangeHash)

abbrev pub HasEdge : ChangeHash → ChangeHash → Edges → Type 0
HasEdge d h [] = ⊥
HasEdge d h ((x, y) ∷ edges) = ((d ≡ x) × (h ≡ y)) ⊎ HasEdge d h edges

hash_mem-dependents_of :
    (d h : ChangeHash) (edges : Edges)
    → HasEdge d h edges
    → hash_mem h (dependents_of d edges) ≡ true
unfolding dependents_of hash_mem
hash_mem-dependents_of d h [] e = absurd e
hash_mem-dependents_of d h ((x, y) ∷ edges) e =
    ground (arith, hash_mem-dependents_of d h edges, hash_eq_iff x d, hash_eq_iff h y)

-- What `push_new` adds to the set it adds to the stack, and it adds all the hashes.
record Pushed (hs set stack : List ChangeHash) (next : List ChangeHash × List ChangeHash)
    : Type 0 where
  pub set_grows : (k : ChangeHash) → hash_mem k set ≡ true → hash_mem k (next.0) ≡ true
  pub stack_grows : (k : ChangeHash) → hash_mem k stack ≡ true → hash_mem k (next.1) ≡ true
  pub all_in : (k : ChangeHash) → hash_mem k hs ≡ true → hash_mem k (next.0) ≡ true
  pub waits :
      (k : ChangeHash)
      → hash_mem k (next.0) ≡ true
      → (hash_mem k set ≡ true) ⊎ (hash_mem k (next.1) ≡ true)

push_new-Pushed : (hs set stack : List ChangeHash) → Pushed hs set stack (push_new hs set stack)
unfolding push_new hash_mem
push_new-Pushed [] set stack = record {
  set_grows = λ k e. e;
  stack_grows = λ k e. e;
  all_in = λ k e. ground arith;
  waits = λ k e. inl e;
}
push_new-Pushed (h ∷ hs) set stack =
    let new = push_new-Pushed hs (h ∷ set) (h ∷ stack) in
    let old = push_new-Pushed hs set stack in
    elim (Bool-cases (hash_mem h set)) [
      | inl e ↦ rw e (record {
        set_grows = old.set_grows;
        stack_grows = old.stack_grows;
        all_in = λ k m. ground (arith, old.all_in k, old.set_grows k, hash_mem-eq k h set);
        waits = old.waits;
      })
      | inr e ↦ rw e (record {
        set_grows = λ k m. new.set_grows k (ground arith);
        stack_grows = λ k m. new.stack_grows k (ground arith);
        all_in = λ k m. ground (arith, new.all_in k, new.set_grows k);
        waits = λ k m. ground (arith, new.waits k m, new.stack_grows k);
      })
    ]

-- How many edges lead out of a set.
absent : Edges → List ChangeHash → ℕ
absent [] set = 0
absent ((x, y) ∷ edges) set = (if hash_mem y set then 0 else 1) + absent edges set

absent-grow :
    (edges : Edges) (h : ChangeHash) (set : List ChangeHash)
    → absent edges (h ∷ set) ≤ absent edges set
unfolding absent hash_mem
absent-grow [] h set = omega arith
absent-grow ((x, y) ∷ edges) h set = ground (arith, absent-grow edges h set)

absent-push :
    (edges : Edges) (d h : ChangeHash) (set : List ChangeHash)
    → HasEdge d h edges
    → hash_mem h set ≡ false
    → absent edges (h ∷ set) + 1 ≤ absent edges set
unfolding absent hash_mem
absent-push [] d h set e m = absurd e
absent-push ((x, y) ∷ edges) d h set (inl (dx, hy)) m =
    ground (arith, absent-grow edges h set, hash_eq_iff y h, hash_mem-eq y h set)
absent-push ((x, y) ∷ edges) d h set (inr e) m = ground (arith, absent-push edges d h set e m)

-- All the hashes of a list are dependents of a hash.
AreFrom : Edges → ChangeHash → List ChangeHash → Type 0
AreFrom edges d [] = Unit
AreFrom edges d (h ∷ hs) = HasEdge d h edges × AreFrom edges d hs

push_new-absent :
    (edges : Edges) (d : ChangeHash) (hs set stack : List ChangeHash)
    → AreFrom edges d hs
    → length ((push_new hs set stack).1) + absent edges ((push_new hs set stack).0)
      ≤ length stack + absent edges set
unfolding push_new AreFrom
push_new-absent edges d [] set stack f = omega arith
push_new-absent edges d (h ∷ hs) set stack (e, f) = elim (Bool-cases (hash_mem h set)) [
  | inl m ↦ rw m (push_new-absent edges d hs set stack f)
  | inr m ↦ rw m (
      omega
        (arith, push_new-absent edges d hs (h ∷ set) (h ∷ stack) f, absent-push edges d h set e m))
]

HasEdge-more :
    (d h x y : ChangeHash) (edges : Edges) → HasEdge d h edges → HasEdge d h ((x, y) ∷ edges)
HasEdge-more d h x y edges e = inr e

AreFrom-more :
    (d x y : ChangeHash) (edges : Edges) (hs : List ChangeHash)
    → AreFrom edges d hs
    → AreFrom ((x, y) ∷ edges) d hs
unfolding AreFrom
AreFrom-more d x y edges [] f = tt
AreFrom-more d x y edges (h ∷ hs) (e, f) = (inr e, AreFrom-more d x y edges hs f)

dependents_of-AreFrom : (edges : Edges) (d : ChangeHash) → AreFrom edges d (dependents_of d edges)
unfolding dependents_of AreFrom
dependents_of-AreFrom [] d = tt
dependents_of-AreFrom ((x, y) ∷ edges) d =
    let rest = AreFrom-more d x y edges (dependents_of d edges) (dependents_of-AreFrom edges d) in
    elim (Bool-cases (hash_eq x d)) [
      | inl e ↦ rw e (inl (sym ((hash_eq_iff x d).0 e), refl), rest)
      | inr e ↦ rw e rest
    ]

abbrev pub IsClosed : Edges → List ChangeHash → Type 0
IsClosed edges set =
    (d h : ChangeHash) → HasEdge d h edges → hash_mem d set ≡ true → hash_mem h set ≡ true

abbrev pub Within : List ChangeHash → List ChangeHash → Type 0
Within a b = (k : ChangeHash) → hash_mem k a ≡ true → hash_mem k b ≡ true

-- The least closed set above a set.
pub record IsClosure (edges : Edges) (set result : List ChangeHash) : Type 0 where
  pub contains : Within set result
  pub closed : IsClosed edges result
  pub least : (c : List ChangeHash) → IsClosed edges c → Within set c → Within result c

push_new-Within :
    (edges : Edges) (d : ChangeHash) (c hs set stack : List ChangeHash)
    → IsClosed edges c
    → hash_mem d c ≡ true
    → AreFrom edges d hs
    → Within set c
    → Within ((push_new hs set stack).0) c
unfolding push_new AreFrom hash_mem
push_new-Within edges d c [] set stack closed m f w = w
push_new-Within edges d c (h ∷ hs) set stack closed m (e, f) w =
    elim (Bool-cases (hash_mem h set)) [
      | inl old ↦ rw old (push_new-Within edges d c hs set stack closed m f w)
      | inr new ↦ rw new (
          push_new-Within edges d c hs (h ∷ set) (h ∷ stack) closed m f
            (λ k mk. ground (arith, closed d h e m, w k, hash_mem-eq k h c)))
    ]

-- The invariant: a hash of the set whose dependents are not in it waits on the stack, and the
-- stack's hashes are in the set.
record IsHalfway (edges : Edges) (set stack : List ChangeHash) : Type 0 where
  pub waiting :
      (d h : ChangeHash)
      → HasEdge d h edges
      → hash_mem d set ≡ true
      → (hash_mem h set ≡ true) ⊎ (hash_mem d stack ≡ true)
  pub known : Within stack set

push_new-known :
    (hs set stack : List ChangeHash)
    → Within stack set
    → Within ((push_new hs set stack).1) ((push_new hs set stack).0)
unfolding push_new hash_mem
push_new-known [] set stack w = w
push_new-known (h ∷ hs) set stack w = elim (Bool-cases (hash_mem h set)) [
  | inl old ↦ rw old (push_new-known hs set stack w)
  | inr new ↦ rw new (push_new-known hs (h ∷ set) (h ∷ stack) (λ k m. ground (arith, w k)))
]

round_up :
    (edges : Edges) (x : ChangeHash) (set stack : List ChangeHash)
    → IsHalfway edges set (x ∷ stack)
    → IsHalfway edges
        ((push_new (dependents_of x edges) set stack).0)
        ((push_new (dependents_of x edges) set stack).1)
unfolding hash_mem
round_up edges x set stack r =
    let p = push_new-Pushed (dependents_of x edges) set stack in
    record {
      waiting = λ d h e m. elim (p.waits d m) [
        | inr waits ↦ inr waits
        | inl old ↦ ground (
          arith,
          r.waiting d h e old,
          p.set_grows h,
          p.stack_grows d,
          p.all_in h,
          hash_mem-dependents_of x h edges,
          hash_eq_iff d x,
        )
      ];
      known = push_new-known (dependents_of x edges) set stack (λ k m. r.known k (ground arith));
    }

-- With fuel for the stack and the edges out of the set, the loop ends with the closure of the set.
close-IsClosure :
    (fuel : ℕ) (edges : Edges) (set stack : List ChangeHash)
    → length stack + absent edges set ≤ fuel
    → IsHalfway edges set stack
    → (result : List ChangeHash) × (close fuel edges set stack ≡ some result)
      × IsClosure edges set result
unfolding close hash_mem
close-IsClosure fuel edges set [] hf r = (
  set,
  refl,
  record {
    contains = λ k m. m;
    closed = λ d h e m. ground (arith, r.waiting d h e m);
    least = λ c closed w. w;
  },
)
close-IsClosure zero edges set (x ∷ stack) hf r = absurd (omega arith)
close-IsClosure (suc fuel) edges set (x ∷ stack) hf r =
    let hs = dependents_of x edges in
    let from = dependents_of-AreFrom edges x in
    let p = push_new-Pushed hs set stack in
    let (result, e, c) =
      close-IsClosure fuel edges ((push_new hs set stack).0) ((push_new hs set stack).1)
        (omega (arith, hf, push_new-absent edges x hs set stack from))
        (round_up edges x set stack r) in
    (
      result,
      e,
      record {
        contains = λ k m. c.contains k (p.set_grows k m);
        closed = c.closed;
        least = λ b closed w. c.least b closed (
            push_new-Within edges x b hs set stack closed
              (w x (r.known x (ground (arith, hash_eq_iff x x)))) from w);
      },
    )

absent_le : (edges : Edges) (set : List ChangeHash) → absent edges set ≤ length edges
unfolding absent
absent_le [] set = omega arith
absent_le ((x, y) ∷ edges) set = ground (arith, absent_le edges set)

-- The loop on the stack in `get_hashes_to_send` ends, with the least set of hashes that has the
-- chosen ones and, with every hash, all those that depend on it.
pub with_dependents-IsClosure :
    (edges : Edges) (chosen : List ChangeHash)
    → (result : List ChangeHash) × (with_dependents edges chosen ≡ some result)
      × IsClosure edges chosen result
unfolding with_dependents
with_dependents-IsClosure edges chosen =
    let set = to_set [] chosen in
    let (result, e, c) =
      close-IsClosure (length set + length edges) edges set set (omega (arith, absent_le edges set))
        (record { waiting = λ d h e m. inr m; known = λ k m. m }) in
    (
      result,
      e,
      record {
        contains = λ k m. c.contains k (ground (arith, hash_mem-to_set k [] chosen));
        closed = c.closed;
        least = λ b closed w.
            c.least b closed (λ k m. w k (ground (arith, hash_mem-to_set k [] chosen)));
      },
    )
