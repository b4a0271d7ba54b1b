-- ===== src/Storage/Balance/Even.antt =====
-- How evenly ReBalance deals the jobs out.
pub mod Moves
pub mod Sums
pub mod Apart
pub mod Shed
pub mod Deal
pub mod Counted
pub mod Handover
pub mod Dealt
pub mod Shares
