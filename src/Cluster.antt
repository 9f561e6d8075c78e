-- ===== src/Cluster.antt =====
-- The client node's cluster: include/td_cluster.h and src/cluster.c.
pub mod Monad
pub mod Probe
pub mod Commit
pub mod Votes
pub mod Read
pub mod Write
pub mod Local
pub mod Commits
pub mod Quiet
pub mod Backups
pub mod Candidate
pub mod Landing
pub mod RoundTrip
pub mod ReadBack
pub mod Total
pub mod Finish
pub mod Refused
pub mod Race
