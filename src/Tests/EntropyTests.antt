-- ===== src/Tests/EntropyTests.antt =====
-- The entropy of a script at a concrete input.
use drand.Prelude.{◌≡◌, refl, false, some, [], ◌∷◌, ok}
use drand.Entropy.{script_read}

-- A script that prints two bytes at a time: the third and fourth byte are the first and second again.
repeated_entropy :
    script_read false 4 (some (1 ∷ 2 ∷ []) ∷ some (3 ∷ 4 ∷ []) ∷ [])
    ≡ some (ok (1 ∷ 2 ∷ 1 ∷ 2 ∷ []))
unfolding script_read
repeated_entropy = refl
