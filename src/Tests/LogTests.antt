-- ===== src/Tests/LogTests.antt =====
-- The append store as a log, at concrete requests.
use drand.Prelude.{◌≡◌, refl, List, [], ◌∷◌, ok, bytes_equal, arith}
use drand.Beacon.Append.{invalid_round, put}
use drand.Beacon.Append.Log.{
  Fault, Request, put_request, get_request, last_request, stored, refused, found, log_answers,
  store_answers, Represents, store_answers-log_answers,
}
use drand.Tests.Data.{shelf}
use drand.Tests.BeaconTests.{genesis, first_beacon, fresh}

-- A beacon that is refused, one that is stored, and reads.
abbrev four_requests : List Request
four_requests = put_request genesis ∷ put_request first_beacon ∷ get_request 1 ∷ last_request ∷ []

fresh-Represents : Represents shelf fresh genesis []
fresh-Represents = record {
  current = record { valid = (omega arith, tt); cached = refl; stored = refl };
  reads = λ r small. refl;
}

store_answers-log_answers_example :
    (faults : List Fault) × (store_answers shelf fresh four_requests
      ≡ log_answers faults (genesis ∷ []) four_requests)
store_answers-log_answers_example =
    store_answers-log_answers shelf four_requests fresh genesis [] fresh-Represents (omega arith)
      (tt, (tt, (omega arith, (tt, tt))))

four_answers :
    store_answers shelf fresh four_requests
    ≡ refused invalid_round ∷ stored ∷ found (ok first_beacon) ∷ found (ok first_beacon) ∷ []
unfolding store_answers put bytes_equal
four_answers = refl
