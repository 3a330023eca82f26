-- ===== src/Core/Setup/Keys.antt =====
-- core/group_setup.go: the keys that the leader holds, and the group that it makes.
use drand.Prelude.{
  ℕ, ◌+◌, ◌-◌, ◌*◌, ◌/◌, ◌%◌, ◌≡◌, ◌≤◌, ◌<◌, refl, sym, ap, subst, ◌∙◌, true, false, ◌||◌, Option,
  none, some, List, [], ◌∷◌, ◌++◌, length, ◌==◌, ==_iff, if◌then◌else◌, bytes_equal, arith, All,
  Bool-cases, inl, inr,
}
use native.Mathlib.Nat.{mod-lt, mod-add-div', mul-mod_left}
use drand.Prelude.Int.{pos}
use drand.Key.Suite.{Suite}
use drand.Key.Identity.{Identity}
use drand.Key.Group.{Group, new_group, get_genesis_seed}
use drand.Key.Group.Laws.{length-copy_and_sort, get_genesis_seed-sized}
use drand.Core.Setup.{
  SetupManager, genesis_after, group_of, created_group, create_and_send, is_found, add_key,
}

module _ (K : Suite) where
  -- Two identities that the leader takes for different ones
  abbrev pub IsApart : Identity K → Identity K → Type 0
  IsApart i j = (bytes_equal i.addr j.addr || K.same_point i.key j.key) ≡ false

  -- Each identity is apart from the ones before it.
  abbrev pub IsDistinct : List (Identity K) → Type 0
  IsDistinct [] = Unit
  IsDistinct (i ∷ is) = All (λ j. IsApart i j) is × IsDistinct is

  not_found :
      (is : List (Identity K)) (pk : Identity K)
      → is_found K is pk ≡ false
      → All (λ i. IsApart i pk) is
  unfolding is_found
  not_found [] pk e = tt
  not_found (i ∷ is) pk e =
      elim (Bool-cases (bytes_equal i.addr pk.addr || K.same_point i.key pk.key)) [
        | inl same ↦ absurd (ground arith)
        | inr apart ↦ (apart, not_found is pk (ground arith))
      ]

  snoc-IsApart :
      (i pk : Identity K) (is : List (Identity K))
      → All (λ j. IsApart i j) is
      → IsApart i pk
      → All (λ j. IsApart i j) (is ++ pk ∷ [])
  snoc-IsApart i pk [] v a = (a, tt)
  snoc-IsApart i pk (j ∷ is) v a = (v.0, snoc-IsApart i pk is v.1 a)

  IsDistinct-snoc :
      (is : List (Identity K)) (pk : Identity K)
      → IsDistinct is
      → All (λ i. IsApart i pk) is
      → IsDistinct (is ++ pk ∷ [])
  IsDistinct-snoc [] pk d v = (tt, tt)
  IsDistinct-snoc (i ∷ is) pk d v = (snoc-IsApart i pk is d.0 v.0, IsDistinct-snoc is pk d.1 v.1)

  length-snoc : (is : List (Identity K)) (pk : Identity K) → length (is ++ pk ∷ []) ≡ length is + 1
  length-snoc [] pk = refl
  length-snoc (i ∷ is) pk = omega (arith, length-snoc is pk)

  -- While keys are missing there is no group; then the group has as many nodes as expected, and the
  -- threshold that was asked for.
  pub record IsCollecting (n thr : ℕ) (s : SetupManager K) : Type 0 where
    pub expected : s.expected ≡ n
    pub threshold : s.thr ≡ thr
    pub distinct : IsDistinct s.in_keys
    pub bound : length s.in_keys ≤ n
    pub complete : s.running ≡ false → length s.in_keys ≡ n
    pub unfinished : s.running ≡ true → length s.in_keys < n
    pub sized : (g : Group K) → s.start_dkg ≡ some g → (length g.nodes ≡ n) × (g.threshold ≡ thr)

  some_inj : {g h : Group K} → ◌≡◌ {A = Option (Group K)} (some g) (some h) → g ≡ h
  some_inj e = cc

  group_of-sized :
      (s : SetupManager K) (keys : List (Identity K)) (o : Option ℕ) (g : Group K)
      → group_of K s keys o ≡ some g
      → (length g.nodes ≡ length keys) × (g.threshold ≡ s.thr)
  unfolding group_of new_group
  group_of-sized s keys none g e = cc
  group_of-sized s keys (some genesis) g e =
      let made : Group K =
        new_group K keys s.thr (pos genesis) (pos s.beacon_period) (pos s.catchup_period) in
      let seeded : Group K = (get_genesis_seed K made).1 in
      let same : seeded ≡ g = cc in
      let (size, threshold) = get_genesis_seed-sized K made in
      subst (λ (t : Group K). (length t.nodes ≡ length keys) × (t.threshold ≡ s.thr)) same
        (size ∙ length-copy_and_sort K keys, threshold)

  created_group-sized :
      (s : SetupManager K) (now : ℕ) (keys : List (Identity K)) (o : Option (Group K)) (g : Group K)
      → (created_group K s now keys o).0 ≡ some g
      → (length g.nodes ≡ length keys) × (g.threshold ≡ s.thr)
  unfolding created_group new_group
  created_group-sized s now keys none g e = group_of-sized s keys _ g e
  created_group-sized s now keys (some old) g e =
      subst (λ (t : Group K). (length t.nodes ≡ length keys) × (t.threshold ≡ s.thr)) (some_inj e)
        (length-copy_and_sort K keys, refl)

  add_key-IsCollecting :
      (n thr : ℕ) (s : SetupManager K) (now : ℕ) (pk : Identity K)
      → s.running ≡ true
      → s.start_dkg ≡ none
      → IsCollecting n thr s
      → IsCollecting n thr (add_key K s now pk)
        × ((add_key K s now pk).running ≡ true → (add_key K s now pk).start_dkg ≡ none)
  unfolding add_key create_and_send
  add_key-IsCollecting n thr s now pk running nothing c =
      let keys = s.in_keys ++ pk ∷ [] in
      let step = add_key K s now pk in
      let grown = length-snoc s.in_keys pk in
      let missing = c.unfinished running in
      let goal : SetupManager K → Type 0 =
        λ t. IsCollecting n thr t × (t.running ≡ true → t.start_dkg ≡ none) in
      elim (Bool-cases (is_found K s.in_keys pk)) [
        | inl found ↦
            let same : step ≡ s = rw (found, add_key) refl in
            subst goal (sym same) (c, λ _. nothing)
        | inr new ↦
            let distinct = IsDistinct-snoc s.in_keys pk c.distinct (not_found s.in_keys pk new) in
            elim (Bool-cases (length keys == s.expected)) [
              | inl full ↦
                  let made = create_and_send K s now keys in
                  let done : step ≡ record made { in_keys = keys; running = false } =
                    rw (new, full, add_key) refl in
                  let count : length keys ≡ n =
                    (==_iff (length keys) s.expected).0 full ∙ c.expected in
                  subst goal (sym done) (
                    record {
                      expected = c.expected;
                      threshold = c.threshold;
                      distinct = distinct;
                      bound = omega arith;
                      complete = λ _. count;
                      unfinished = λ e. cc;
                      sized = λ g e.
                          let (size, same) = created_group-sized s now keys s.old_group g e in
                          (size ∙ count, same ∙ c.threshold);
                    },
                    λ e. cc,
                  )
              | inr more ↦
                  let done : step ≡ record s { in_keys = keys } = rw (new, more, add_key) refl in
                  let other : length keys < n = let same = c.expected in ground arith in
                  subst goal (sym done) (
                    record {
                      expected = c.expected;
                      threshold = c.threshold;
                      distinct = distinct;
                      bound = omega arith;
                      complete = λ e. cc;
                      unfinished = λ _. other;
                      sized = λ g e. cc;
                    },
                    λ _. nothing,
                  )
            ]
      ]

  -- The keys that arrive while the leader waits, each with the time of its arrival
  unfoldable pub add_keys : SetupManager K → List (ℕ × Identity K) → SetupManager K
  add_keys s [] = s
  add_keys s ((now, pk) ∷ rest) = add_keys (if s.running then add_key K s now pk else s) rest

  -- Keys that arrive keep what a leader that collects has: while it runs, keys are missing.
  pub add_keys-IsCollecting :
      (n thr : ℕ) (s : SetupManager K) (pks : List (ℕ × Identity K))
      → (s.running ≡ true → s.start_dkg ≡ none)
      → IsCollecting n thr s
      → IsCollecting n thr (add_keys s pks)
  unfolding add_keys
  add_keys-IsCollecting n thr s [] nothing c = c
  add_keys-IsCollecting n thr s ((now, pk) ∷ pks) nothing c = elim (Bool-cases s.running) [
    | inl runs ↦
        let (c', nothing') = add_key-IsCollecting n thr s now pk runs (nothing runs) c in
        let step : add_keys s ((now, pk) ∷ pks) ≡ add_keys (add_key K s now pk) pks =
          ap (λ t. add_keys (if t then add_key K s now pk else s) pks) runs in
        subst (IsCollecting n thr) (sym step)
          (add_keys-IsCollecting n thr (add_key K s now pk) pks nothing' c')
    | inr stopped ↦
        let step : add_keys s ((now, pk) ∷ pks) ≡ add_keys s pks =
          ap (λ t. add_keys (if t then add_key K s now pk else s) pks) stopped in
        subst (IsCollecting n thr) (sym step) (add_keys-IsCollecting n thr s pks nothing c)
  ]

-- The genesis time is a multiple of the period after the time at which it is made to start, at most a
-- period away; there is one unless the period is shorter than a second.
pub genesis_after_lem :
    (ps at_least : ℕ)
    → 0 < ps
    → (genesis : ℕ) × (genesis_after ps at_least ≡ some genesis)
      × (genesis % ps ≡ 0)
      × (at_least < genesis)
      × (genesis ≤ at_least + ps)
unfolding genesis_after
genesis_after_lem ps at_least h =
    let rest = mod-lt at_least h in
    let split = mod-add-div' at_least ps in
    let whole : at_least + (ps - at_least % ps) ≡ (at_least / ps + 1) * ps = omega arith in
    let multiple : (at_least + (ps - at_least % ps)) % ps ≡ 0 =
      ap (λ t. t % ps) whole ∙ mul-mod_left (at_least / ps + 1) ps in
    let nonzero : (ps == 0) ≡ false = ground arith in
    (
      at_least + (ps - at_least % ps),
      rw (nonzero, genesis_after) refl,
      multiple,
      omega arith,
      omega arith,
    )
