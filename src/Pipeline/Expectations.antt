-- ===== src/Pipeline/Expectations.antt =====
-- testinghq/pipeline/expectations.py: grading a message against what the system recorded. `Expected`
-- is what should be there, `Values` compares, `Checks` holds the checks, and `Evaluate` the verdict.
pub mod Expected
pub mod Values
pub mod Checks
pub mod Threads
pub mod Evaluate
pub mod Graded
pub mod Attachments
