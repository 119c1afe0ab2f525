-- ===== src/Pool/Bounds.antt =====
-- pool-control/src/bounds.rs: the contract ceilings that the registry enforces.
use sdkwork_sandbox.Base.{ℕ}

abbrev pub claim_ttl_seconds_max : ℕ
claim_ttl_seconds_max = 60

abbrev pub reconciliation_batch_size_max : ℕ
reconciliation_batch_size_max = 100

abbrev pub candidate_slot_count_max : ℕ
candidate_slot_count_max = 128

abbrev pub claim_attempt_count_max : ℕ
claim_attempt_count_max = 8

abbrev pub retry_after_seconds_max : ℕ
retry_after_seconds_max = 300

abbrev pub cleanup_deadline_seconds_max : ℕ
cleanup_deadline_seconds_max = 120

abbrev pub refill_operations_per_node_max : ℕ
refill_operations_per_node_max = 16

abbrev pub per_profile_target_max : ℕ
per_profile_target_max = 1000

abbrev pub exhausted_retry_after_seconds : ℕ
exhausted_retry_after_seconds = 30
