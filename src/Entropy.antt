-- ===== src/Entropy.antt =====
-- entropy/entropy.go: randomness of a reader or of a script. What the script prints at each run, and what
-- the system's generator gives, are arguments; a run that fails is none.
use drand.Prelude.{
  true, false, ℕ, zero, suc, ◌+◌, ◌-◌, ◌≡◌, ◌≤◌, Bool, Option, none, some, List, [], ◌∷◌, ◌++◌,
  length, ltb, ◌==◌, if◌then◌else◌, Result, ok, err, Bytes, arith, Bool-cases, inl, inr,
}

-- The first n bytes, all of them where there are fewer
unfoldable pub take_bytes : ℕ → Bytes → Bytes
take_bytes zero b = []
take_bytes (suc n) [] = []
take_bytes (suc n) (x ∷ b) = x ∷ take_bytes n b

pub data EntropyError : Type 0 where
  no_reader script_failed : EntropyError

-- What a Read gave: the bytes, or none with an error
unfoldable pub get_random : Option (Option Bytes) → Bytes → ℕ → Bytes
get_random none system n = system
get_random (some none) system n = system
get_random (some (some read)) system n = if length read == n then read else system

-- The loop of ScriptReader.Read: what is read so far, and the buffer, which keeps the output of all
-- runs. The loop runs on while the output falls short; where the runs end first, nothing is returned.
unfoldable pub read_loop :
    ℕ → Bytes → Bytes → List (Option Bytes) → Option (Result EntropyError Bytes)
unfolding take_bytes
read_loop n read buffer [] = if ltb (length read) n then none else some (ok read)
read_loop n read buffer (none ∷ runs) =
    if ltb (length read) n then some (err script_failed) else some (ok read)
read_loop n read buffer (some output ∷ runs) =
    let b = buffer ++ output in
    let next = read_loop n (read ++ take_bytes (n - length read) b) b runs in
    if ltb (length read) n then next else some (ok read)

-- ScriptReader.Read, with whether the path is empty
unfoldable pub script_read : Bool → ℕ → List (Option Bytes) → Option (Result EntropyError Bytes)
unfolding read_loop
script_read no_path n runs = if no_path then some (err no_reader) else read_loop n [] [] runs

length-append : (a b : Bytes) → length (a ++ b) ≡ length a + length b
length-append [] b = omega arith
length-append (x ∷ a) b = omega (arith, length-append a b)

take_bytes-fits : (n : ℕ) (b : Bytes) → length (take_bytes n b) ≤ n
unfolding take_bytes
take_bytes-fits zero b = omega arith
take_bytes-fits (suc n) [] = omega arith
take_bytes-fits (suc n) (x ∷ b) = omega (arith, take_bytes-fits n b)

read_loop-exact :
    (n : ℕ) (read buffer : Bytes) (runs : List (Option Bytes)) (out : Bytes)
    → length read ≤ n
    → read_loop n read buffer runs ≡ some (ok out)
    → length out ≡ n
unfolding read_loop
read_loop-exact n read buffer [] out small h = ground arith
read_loop-exact n read buffer (none ∷ runs) out small h = ground arith
read_loop-exact n read buffer (some output ∷ runs) out small h =
    elim (Bool-cases (ltb (length read) n)) [
      | inl short ↦
          let more = take_bytes-fits (n - length read) (buffer ++ output) in
          let size = length-append read (take_bytes (n - length read) (buffer ++ output)) in
          read_loop-exact n (read ++ take_bytes (n - length read) (buffer ++ output))
            (buffer ++ output) runs out (omega arith) (ground arith)
      | inr full ↦ ground arith
    ]

-- Read gives as many bytes as asked for whenever it gives no error.
pub script_read-exact :
    (no_path : Bool) (n : ℕ) (runs : List (Option Bytes)) (out : Bytes)
    → script_read no_path n runs ≡ some (ok out)
    → length out ≡ n
unfolding script_read
script_read-exact true n runs out h = cc
script_read-exact false n runs out h = read_loop-exact n [] [] runs out (omega arith) h
