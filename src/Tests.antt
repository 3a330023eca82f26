-- ===== src/Tests.antt =====
-- Concrete inputs for the theorems: data in Tests.Data, and a module for each part.
pub mod Data
pub mod Bucket
mod ChainTests
mod BeaconTests
mod HandlerTests
mod ClientTests
mod CoreTests
mod OptimizingTests
mod LogTests
mod SetupTests
mod EntropyTests
mod HttpTests
mod ConfigTests
mod RestartTests
mod StartTests
mod FollowTests
mod OrderTests
mod CallTests
