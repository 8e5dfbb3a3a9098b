-- ===== src/Server/Error.antt =====
-- The errors that reach the handlers of internal/server: those of the upstream client, and those of
-- the pool and the session manager.
use freebuff_proxy_scaleway.Base.{String}
use freebuff_proxy_scaleway.Upstream.Failure.{Failure}
use freebuff_proxy_scaleway.Pool.Buckets.{WaitingRoomError}
use freebuff_proxy_scaleway.Pool.Scarce.{ScarceSessionError}

-- `unfit` is the bare sentinel `ErrModelIPLimited`.
pub data ServerError : Type 0 where
  failure : Failure → ServerError
  session_waiting : WaitingRoomError → ServerError
  scarce : ScarceSessionError → ServerError
  model_not_found : String → ServerError
  unfit : ServerError
