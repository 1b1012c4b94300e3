-- ===== src/Tests.antt =====
-- Runs of the model at small inputs, and the theorems at inputs that meet their hypotheses.
mod Backend
mod Parties
mod Systems
mod Answers
mod Editor
mod Listings
mod Pool
mod Parser
mod Reopening
mod Traces
mod Frames
