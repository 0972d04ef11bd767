-- ===== src/Columnar/Raw/Position.antt =====
-- columnar/encoding/raw.rs: what is left to read, and how a read moves it.
use automerge_r.Common.{
  ℕ, zero, suc, ◌+◌, ◌-◌, ◌<◌, ◌≤◌, ◌≡◌, refl, true, false, List, [], ◌∷◌, ◌++◌, length,
  length-append, length-drop, drop-append_left, drop, Result, ok, arith, ◌==◌, ap, sym, ◌∙◌,
}
use automerge_r.Columnar.Raw.{RawDecoder, buf, moved, after, read, done, new}

-- `rest` is what is left to read, and the decoder stands inside its data.
pub record IsAt (d : RawDecoder) (rest : List ℕ) : Type 0 where
  pub left : buf d ≡ rest
  pub inside : d.offset ≤ length d.data_bytes

pub new-IsAt : (bs : List ℕ) → IsAt (new bs) bs
new-IsAt bs = record { left = refl; inside = omega arith }

drop-nil : {A : Type 0} (n : ℕ) → drop {A = A} n [] ≡ []
drop-nil zero = refl
drop-nil (suc n) = refl

drop-drop : {A : Type 0} (m n : ℕ) (xs : List A) → drop (m + n) xs ≡ drop n (drop m xs)
drop-drop zero n xs = let e : 0 + n ≡ n = omega arith in ap (λ (t : ℕ). drop t xs) e
drop-drop (suc m) n [] = drop-nil (suc m + n) ∙ sym (drop-nil n)
drop-drop (suc m) n (x ∷ xs) =
    let e : suc m + n ≡ suc (m + n) = omega arith in
    ap (λ (t : ℕ). drop t (x ∷ xs)) e ∙ drop-drop m n xs

length_left :
    {d : RawDecoder} {rest : List ℕ} → IsAt d rest → d.offset + length rest ≡ length d.data_bytes
length_left {d} h = omega (arith, length-drop d.offset d.data_bytes, ap length h.left, h.inside)

pub moved-IsAt :
    {d : RawDecoder} (front rest : List ℕ)
    → IsAt d (front ++ rest)
    → IsAt (moved d (length front)) rest
moved-IsAt {d} front rest h = record {
  left =
      drop-drop d.offset (length front) d.data_bytes
      ∙ ap (drop (length front)) h.left
      ∙ drop-append_left front rest;
  inside = omega (arith, length_left h, length-append front rest);
}

pub done-IsAt : {d : RawDecoder} {bs : List ℕ} → IsAt d bs → 0 < length bs → done d ≡ false
unfolding done
done-IsAt h nz = ground (arith, length_left h)

pub done_end : {d : RawDecoder} → IsAt d [] → done d ≡ true
unfolding done
done_end h = ground (arith, length_left h)

after_ok :
    {E T : Type 0} (d : RawDecoder) (r : Result E (T × List ℕ)) (front rest : List ℕ) (v : T)
    → length (buf d) ≡ length front + length rest
    → r ≡ ok (v, rest)
    → 0 < length front
    → after d r ≡ ok (moved d (length front), v)
after_ok d r front rest v eb er nz =
    let e : length (buf d) - length rest ≡ length front = omega arith in
    let test : (length front == 0) ≡ false = ground arith in rw er (rw e (rw test refl))

-- A value that the bytes begin with is read, and the decoder moves behind it.
pub read-IsAt :
    {E T : Type 0} {d : RawDecoder} (decode : List ℕ → Result E (T × List ℕ)) (front rest : List ℕ)
    (v : T)
    → IsAt d (front ++ rest)
    → decode (front ++ rest) ≡ ok (v, rest)
    → 0 < length front
    → read decode d ≡ ok (moved d (length front), v)
unfolding read
read-IsAt {d = d} decode front rest v h e nz =
    after_ok d (decode (buf d)) front rest v (ap length h.left ∙ length-append front rest)
      (ap decode h.left ∙ e) nz
