-- ===== src/Quota.antt =====
-- internal/apikey/quota.go: the quota store of the API keys, over its four database tables.
-- Times and durations are nanoseconds; 0 is the zero time. The identifiers are texts that the code
-- compares and tests for being blank, so a number stands for each, and 0 for a blank one.
pub mod Types
pub mod Policy
pub mod Limits
pub mod Rows
pub mod Admit
pub mod Settle
pub mod Recover
pub mod Balance
pub mod Closing
pub mod Lock
pub mod Sums
pub mod Settlement
pub mod Endings
pub mod Outcomes
pub mod Opening
pub mod Admission
pub mod Granting
pub mod Cleanup
pub mod Within
pub mod Admitted
pub mod Admissions
pub mod Lockout
pub mod Recovery
pub mod Recovered
pub mod Final
pub mod Tests
