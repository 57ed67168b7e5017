-- ===== src/Toolset.antt =====
-- toolset.rs: the registry of tools and of the groups that make them visible.
pub mod Names
pub mod Registry
pub mod State
pub mod Changes
pub mod Tools
pub mod Listing
pub mod Overview
