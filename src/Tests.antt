-- ===== src/Tests.antt =====
-- Concrete inputs: the theorems at values that meet their hypotheses, and runs of the definitions.
mod Validation
mod Limits
mod Sessions
mod Games
mod Logins
mod Queries
mod Upstream
mod Images
mod Requests
