-- ===== src/Tests/Data.antt =====
-- Small instances of what the development takes as parameters, and data over them.
use drand.Prelude.{
  ℕ, ◌≡◌, refl, subst, true, none, some, List, [], ◌∷◌, if◌then◌else◌, ◌==◌, leb, Bytes,
  bytes_equal, Result, ok, err, All, arith, length,
}
use drand.Prelude.Int.{ℤ, pos}
use drand.Chain.Block.{Beacon}
use drand.Chain.Crypto.{Crypto}
use drand.Store.{Store, StoreError, no_beacon_saved, IsRound}

-- A scheme in which a message is its own signature, a partial is the message behind the signer's index,
-- and a hash is what it hashes.
abbrev pub signer : Bytes → ℤ
signer [] = pos 0
signer (i ∷ rest) = pos i

abbrev pub toy : Crypto
toy = record {
  Point = Unit {0};
  PubPoly = Unit {0};
  PriShare = ℕ;
  sha256 = λ m. m;
  commit = λ _. tt;
  verify_recovered = λ _ msg sig. bytes_equal msg sig;
  verify_partial = λ _ msg sig. true;
  recover = λ _ msg sigs t n. if leb t (length sigs) then some msg else none;
  sign = λ i msg. some (i ∷ msg);
  index_of = signer;
}

abbrev pub find : List Beacon → ℕ → Result StoreError Beacon
find [] r = err no_beacon_saved
find (b ∷ bs) r = if b.round == r then ok b else find bs r

abbrev pub newest : List Beacon → Result StoreError Beacon
newest [] = err no_beacon_saved
newest (b ∷ bs) = ok b

pub newest_found :
    (s : List Beacon) (l : Beacon)
    → All (λ b. IsRound b.round) s
    → newest s ≡ ok l
    → IsRound l.round × (find s l.round ≡ ok l)
newest_found [] l v h = cc
newest_found (b ∷ bs) l v h =
    let same : b ≡ l = cc in
    (
      subst (λ (t : Beacon). IsRound t.round) same v.0,
      subst (λ (t : Beacon). find (b ∷ bs) t.round ≡ ok t) same (ground arith),
    )

pub stacked :
    (s s' : List Beacon) (b : Beacon)
    → ◌≡◌ {A = Result StoreError (List Beacon)} (ok (b ∷ s)) (ok s')
    → b ∷ s ≡ s'
stacked s s' b e = cc

-- A store that keeps every beacon, the newest first.
abbrev pub shelf : Store
shelf = record {
  State = List Beacon;
  put = λ s b. ok (b ∷ s);
  last = newest;
  get = find;
  IsValid = λ s. All (λ (b : Beacon). IsRound b.round) s;
  put-IsValid =
      λ s s' b v h e. subst (All (λ (x : Beacon). IsRound x.round)) (stacked s s' b e) (h, v);
  get-put = λ s s' b r v _ _ e.
      subst (λ t. find t r ≡ (if b.round == r then ok b else find s r)) (stacked s s' b e) refl;
  last-put = λ s s' b l v _ e _ _. subst (λ t. newest t ≡ ok b) (stacked s s' b e) refl;
  get-last = newest_found;
}
