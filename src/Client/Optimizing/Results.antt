-- ===== src/Client/Optimizing/Results.antt =====
-- client/optimizing.go: what the optimizing client answers and sends on.
use drand.Prelude.{
  ℕ, ◌≡◌, ◌≤◌, ◌<◌, ◌↔◌, refl, sym, ap, subst, List, [], ◌∷◌, ◌++◌, ltb, Result, ok, err,
  Bool-cases, Result-cases, inl, inr, arith, All,
}
use drand.Prelude.Int.{ℤ}
use drand.Client.Verify.{RandomData}
use drand.Client.Optimizing.{
  OptimizingClient, RequestResult, GetError, empty_client_unsupported, context, failure,
  WatchResult, race, joined, get_answer, get, exhausted, observe, track,
}

-- Rounds that grow from one to the next, each above a bound.
abbrev pub IsAscendingAbove : ℕ → List RandomData → Type 0
IsAscendingAbove bound [] = Unit
IsAscendingAbove bound (r ∷ rs) = (bound < r.rnd) × IsAscendingAbove r.rnd rs

-- The last round that was sent on, or the bound.
abbrev pub latest_of : ℕ → List RandomData → ℕ
latest_of bound [] = bound
latest_of bound (r ∷ rs) = latest_of r.rnd rs

bound-le-latest_of :
    (bound : ℕ) (rs : List RandomData) → IsAscendingAbove bound rs → bound ≤ latest_of bound rs
bound-le-latest_of bound [] a = omega arith
bound-le-latest_of bound (r ∷ rs) a = let above = bound-le-latest_of r.rnd rs a.1 in omega arith

-- Whatever the watched clients send, in whatever order and however often: the rounds that are sent on
-- grow from one to the next, and none of those received lies above the last one sent on.
pub track-IsAscendingAbove :
    (period genesis : ℤ) (oc : OptimizingClient) (latest : ℕ) (rs : List WatchResult)
    → let out = (track period genesis oc latest rs).1 in
      IsAscendingAbove latest out
      × All (λ (r : WatchResult). r.result.rnd ≤ latest_of latest out) rs
unfolding track
track-IsAscendingAbove period genesis oc latest [] = (tt, tt)
track-IsAscendingAbove period genesis oc latest (r ∷ rs) =
    let oc' = observe period genesis oc r in
    let goal : List RandomData → Type 0 = λ out.
      IsAscendingAbove latest out
      × All (λ (w : WatchResult). w.result.rnd ≤ latest_of latest out) (r ∷ rs) in
    elim (Bool-cases (ltb latest r.result.rnd)) [
      | inl newer ↦
          let rest = (track period genesis oc' r.result.rnd rs).1 in
          let step : (track period genesis oc latest (r ∷ rs)).1 ≡ r.result ∷ rest =
            rw (newer, track) refl in
          let (ascending, bounded) = track-IsAscendingAbove period genesis oc' r.result.rnd rs in
          let reached = bound-le-latest_of r.result.rnd rest ascending in
          subst goal (sym step) ((ground arith, ascending), (reached, bounded))
      | inr older ↦
          let rest = (track period genesis oc' latest rs).1 in
          let step : (track period genesis oc latest (r ∷ rs)).1 ≡ rest = rw (older, track) refl in
          let (ascending, bounded) = track-IsAscendingAbove period genesis oc' latest rs in
          let reached = bound-le-latest_of latest rest ascending in
          subst goal (sym step) (ascending, (ground arith, bounded))
    ]

-- A result of one of the requests that is no error, with nothing but errors before it.
abbrev pub IsAnswer : RandomData → Result GetError RandomData → Type 0 → Type 0
IsAnswer d (ok x) later = x ≡ d
IsAnswer d (err e) later = later

abbrev pub IsFirst : RandomData → List RequestResult → Type 0
IsFirst d [] = ⊥
IsFirst d (r ∷ rs) = IsAnswer d r.answer (IsFirst d rs)

joined_err :
    (es : List GetError) (e : GetError)
    → (es' : List GetError) × (joined (err es) (err e) ≡ err es')
unfolding joined
joined_err es empty_client_unsupported = (es, refl)
joined_err es context = (es ++ context ∷ [], refl)
joined_err es (failure n) = (es ++ failure n ∷ [], refl)

same_ok : (x d : RandomData) → (◌≡◌ {A = Result (List GetError) RandomData} (ok x) (ok d)) ↔ (x ≡ d)
same_ok x d = (λ e. cc, λ e. ap ok e)

raced_answer :
    (es : List GetError) (rs : List RequestResult) (d : RandomData)
    → (get_answer (err es) (race rs) ≡ ok d) ↔ IsFirst d rs
unfolding get_answer race
raced_answer es [] d = (λ e. cc, λ h. absurd h)
raced_answer es (r ∷ rs) d = elim (Result-cases r.answer) [
  | inl (x, answered) ↦
      let step : get_answer (err es) (race (r ∷ rs)) ≡ ok x =
        rw (answered, race) (rw (answered, get_answer) (unfold joined in refl)) in
      let first : IsFirst d (r ∷ rs) ≡ (x ≡ d) = ap (λ a. IsAnswer d a (IsFirst d rs)) answered in
      subst (λ t. (get_answer (err es) (race (r ∷ rs)) ≡ ok d) ↔ t) (sym first)
        (subst (λ t. (t ≡ ok d) ↔ (x ≡ d)) (sym step) (same_ok x d))
  | inr (e, failed) ↦
      let (es', more) = joined_err es e in
      let step : get_answer (err es) (race (r ∷ rs)) ≡ get_answer (err es') (race rs) =
        rw (failed, race) (rw (failed, get_answer) (rw more refl)) in
      let first : IsFirst d (r ∷ rs) ≡ IsFirst d rs =
        ap (λ a. IsAnswer d a (IsFirst d rs)) failed in
      subst (λ t. (get_answer (err es) (race (r ∷ rs)) ≡ ok d) ↔ t) (sym first)
        (subst (λ t. (t ≡ ok d) ↔ IsFirst d rs) (sym step) (raced_answer es' rs d))
]

-- Where the requests come to an end, Get gives a result exactly where one of them succeeded, and then the
-- first that did.
pub get-IsFirst :
    (oc : OptimizingClient) (results : List RequestResult) (d : RandomData)
    → ((get oc results exhausted).1 ≡ ok d) ↔ IsFirst d results
unfolding get
get-IsFirst oc results d = raced_answer [] results d
