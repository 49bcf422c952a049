-- ===== src/Tests.antt =====
-- Runs on small data, and each theorem with hypotheses at an input that meets them.
mod Sample
mod Sorter
mod Templates
mod Reports
mod Loops
mod Lookups
mod Flows
mod Files
mod Large
mod Commands
mod Names
mod Process
