-- ===== src/Chain/Crypto.antt =====
-- The libraries that the repository calls for its cryptography, as one parameter: SHA-256, and the
-- threshold BLS scheme of kyber (`key.Scheme`). A Go `error` result is a Boolean, true for nil.
use drand.Prelude.{ℕ, Bool, Option, List, Bytes}
use drand.Prelude.Int.{ℤ}

pub record Crypto : Type 1 where
  pub Point : Type 0
  pub PubPoly : Type 0
  pub PriShare : Type 0
  -- sha256.Sum256
  pub sha256 : Bytes → Bytes
  -- PubPoly.Commit()
  pub commit : PubPoly → Point
  -- key.Scheme.VerifyRecovered(public, msg, sig) == nil
  pub verify_recovered : Point → Bytes → Bytes → Bool
  -- key.Scheme.VerifyPartial(public, msg, sig) == nil
  pub verify_partial : PubPoly → Bytes → Bytes → Bool
  -- key.Scheme.Recover(public, msg, sigs, t, n)
  pub recover : PubPoly → Bytes → List Bytes → ℕ → ℕ → Option Bytes
  -- key.Scheme.Sign(share, msg)
  pub sign : PriShare → Bytes → Option Bytes
  -- key.Scheme.IndexOf(sig), its error dropped as every caller does
  pub index_of : Bytes → ℤ
