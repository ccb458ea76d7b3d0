-- ===== src/Fault/Replay.antt =====
-- What a follower learns of the leader's result.
use tierbuf.Prelude.{◌≡◌, refl, none}
use tierbuf.Fault.{
  BufError, io, pool_exhausted, tier_exhausted, invalid_page, duplicate_handle, invalid_config,
  contended, retry, shutting_down, FaultResult, fault_ok, fault_err, to_replayable, of_replayable,
  from_result, into_result,
}

-- A result without what an I/O error holds beside its kind and message.
abbrev pub visible : FaultResult → FaultResult
visible (fault_err (io e)) = fault_err (io (record e { source = none }))
visible r = r

of-to : (e : BufError) → fault_err (of_replayable (to_replayable e)) ≡ visible (fault_err e)
unfolding of_replayable to_replayable
of-to (io e) = refl
of-to pool_exhausted = refl
of-to (tier_exhausted tier) = refl
of-to (invalid_page pid) = refl
of-to (duplicate_handle pid) = refl
of-to (invalid_config message) = refl
of-to contended = refl
of-to retry = refl
of-to shutting_down = refl

-- The result that a follower replays is the leader's, but for what an I/O error holds beside its
-- kind and message.
pub into_result-from_result : (r : FaultResult) → into_result (from_result r) ≡ visible r
unfolding into_result from_result
into_result-from_result (fault_ok tier) = refl
into_result-from_result (fault_err e) = of-to e
