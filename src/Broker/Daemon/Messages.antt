-- ===== src/Broker/Daemon/Messages.antt =====
-- The messages of broker/daemon.py. A message's `data` dict is read into typed arguments: `none`
-- stands for arguments whose reading raises `KeyError`, `ValueError` or `TypeError`.
use dev_harness.Common.{ℕ, String, Option, nat_eq, string_eq}
use dev_harness.Contracts.Enums.{ProviderId}

pub record ReserveArgs : Type 0 where
  pub provider : ProviderId
  pub tokens : ℕ
  pub callback_endpoint : String

pub record CommitArgs : Type 0 where
  pub reservation_id : String
  pub actual : ℕ
  pub model : String
  pub usage_in : ℕ
  pub usage_out : ℕ
  pub provider : ProviderId
  pub callback_endpoint : String

pub record ReleaseArgs : Type 0 where
  pub reservation_id : String
  pub provider : ProviderId

pub data Request : Type 0 where
  health : Request
  reserve : Option ReserveArgs → Request
  commit : Option CommitArgs → Request
  release : Option ReleaseArgs → Request
  metrics : Request
  other : (op : String) → Request

pub data Reason : Type 0 where
  budget rate_limited saturated error : Reason

pub record Metrics : Type 0 where
  pub p50_latency_ms : ℕ
  pub p95_latency_ms : ℕ
  pub tpm_burn : ℕ
  pub cumulative_usd : ℕ

pub data Reply : Type 0 where
  health_ok : Reply
  reserved : (reservation_id : String) (provider : ProviderId) (tokens : ℕ) → Reply
  refused : Reason → Reply
  committed : (delta : ℕ) → Reply
  released : (tokens : ℕ) → Reply
  metrics_snapshot : Metrics → Reply
  unknown_op : (op : String) → Reply

-- `raised` is an exception that leaves `_handle_message`, which ends the connection's thread.
pub data Answer : Type 0 where
  replied : Reply → Answer
  raised : Answer

-- What the handler of one message reads from its surroundings: the clock in the bucket, in the
-- store and in the governor, and a fresh reservation id.
pub record Surroundings : Type 0 where
  pub bucket_now : ℕ
  pub store_now : ℕ
  pub governor_now : ℕ
  pub fresh_id : String
