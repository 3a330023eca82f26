-- ===== src/Client/Cache/Answers.antt =====
-- client/cache.go: the caching client over a client whose answers change between the calls.
use drand.Prelude.{
  ℕ, ◌≡◌, ◌≢◌, ◌⊎◌, refl, sym, ap, ◌∙◌, inl, inr, Option, none, some, List, All, [], ◌∷◌,
  Option-cases,
}
use drand.Client.Verify.{RandomData}
use drand.Client.Cache.{Cache, remember, or_fetch, cached_get}

-- A call of Get: the round, and what the wrapped client answers at that time
pub record Call : Type 0 where
  pub round : ℕ
  pub client : ℕ → Option RandomData

module _ (cache : Cache) (beacon : ℕ → RandomData) where
  -- The client may fail at any time and for any round. What it answers is a result of the
  -- chain, of a round from 1 on, whichever it is at that time: the latest one may move.
  pub record IsHonest (client : ℕ → Option RandomData) : Type 0 where
    pub known : (round : ℕ) (r : RandomData) → client round ≡ some r → r ≡ beacon r.rnd
    pub numbered : (round : ℕ) (r : RandomData) → client round ≡ some r → r.rnd ≢ 0

  -- What the cache returns is the result of the round, and nothing for round 0.
  abbrev pub IsFaithful : cache.State → Type 0
  IsFaithful c =
      (round : ℕ) (r : RandomData)
      → (cache.try_get c round).0 ≡ some r
      → (r ≡ beacon round) × (round ≢ 0)

  -- The answer to a call: the client's, or the result of the round, which is never the answer to a call for
  -- the latest round.
  abbrev pub IsAnswer : Call → Option RandomData → Type 0
  IsAnswer call a =
      (a ≡ call.client call.round) ⊎ ((call.round ≢ 0) × (a ≡ some (beacon call.round)))

  add-IsFaithful :
      (c : cache.State) (val : RandomData)
      → val ≡ beacon val.rnd
      → val.rnd ≢ 0
      → IsFaithful c
      → IsFaithful (cache.add c val.rnd val)
  add-IsFaithful c val known numbered faithful round r found =
      elim (cache.try_get-add c val.rnd round val r found) [
        | inl (same, result) ↦ (sym result ∙ known ∙ ap beacon same, λ e. numbered (same ∙ e))
        | inr older ↦ faithful round r older
      ]

  or_fetch-IsFaithful :
      (call : Call) (t : Option RandomData × cache.State)
      → IsHonest call.client
      → ((r : RandomData) → t.0 ≡ some r → (r ≡ beacon call.round) × (call.round ≢ 0))
      → IsFaithful t.1
      → let t' = or_fetch cache call.client call.round t in IsAnswer call t'.0 × IsFaithful t'.1
  unfolding or_fetch remember
  or_fetch-IsFaithful call (some val, c) honest hit faithful =
      let (known, later) = hit val refl in (inr (later, ap some known), faithful)
  or_fetch-IsFaithful call (none, c) honest hit faithful =
      elim (Option-cases (call.client call.round)) [
        | inl nothing ↦ rw nothing (inl refl, faithful)
        | inr (val, answered) ↦ rw answered (
          inl refl,
          add-IsFaithful c val (honest.known call.round val answered)
              (honest.numbered call.round val answered) faithful,
        )
      ]

  cached_get-IsFaithful :
      (c : cache.State) (call : Call)
      → IsHonest call.client
      → IsFaithful c
      → IsAnswer call (cached_get cache call.client c call.round).0
        × IsFaithful (cached_get cache call.client c call.round).1
  unfolding cached_get
  cached_get-IsFaithful c call honest faithful =
      or_fetch-IsFaithful call (cache.try_get c call.round) honest
        (λ r found. faithful call.round r found)
        (λ other r found. faithful other r (cache.try_get-try_get c call.round other r found))

  -- The answers to a sequence of calls of Get
  unfoldable pub answers : cache.State → List Call → List (Option RandomData)
  answers c [] = []
  answers c (call ∷ calls) =
      let t = cached_get cache call.client c call.round in t.0 ∷ answers t.1 calls

  -- Each call and its answer
  abbrev pub AreAnswers : List Call → List (Option RandomData) → Type 0
  AreAnswers [] [] = Unit
  AreAnswers [] (a ∷ rest) = ⊥
  AreAnswers (call ∷ calls) [] = ⊥
  AreAnswers (call ∷ calls) (a ∷ rest) = IsAnswer call a × AreAnswers calls rest

  answers-faithful :
      (c : cache.State) (calls : List Call)
      → All (λ (call : Call). IsHonest call.client) calls
      → IsFaithful c
      → AreAnswers calls (answers c calls)
  unfolding answers
  answers-faithful c [] honest faithful = tt
  answers-faithful c (call ∷ calls) honest faithful =
      let (good, faithful') = cached_get-IsFaithful c call honest.0 faithful in
      (
        good,
        answers-faithful (cached_get cache call.client c call.round).1 calls honest.1 faithful',
      )

  -- Over a client that answers with results of one chain, of rounds from 1 on, and may fail and give other
  -- latest results from call to call: the caching client, from an empty cache on and whatever is
  -- evicted, answers each Get as the client does at that time, or with the result of the round asked for.
  -- The latest result, of round 0, is always the client's.
  pub answers-AreAnswers :
      (calls : List Call)
      → All (λ (call : Call). IsHonest call.client) calls
      → AreAnswers calls (answers cache.empty calls)
  answers-AreAnswers calls honest =
      answers-faithful cache.empty calls honest (λ round r found. absurd (no_entry round r found))
    where
      no_entry : (round : ℕ) (r : RandomData) → (cache.try_get cache.empty round).0 ≡ some r → ⊥
      no_entry round r found = let nothing = cache.try_get-empty round in cc
