-- ===== src/Pool/Reclaim/Outcomes.antt =====
-- Whatever a ticket's eviction comes to, no page is lost and the frame is free again or as it was.
use tierbuf.Frame.{Frame, evicting}
use tierbuf.Frame.Queue.{ArrayQueue}
use tierbuf.Cooling.{CoolingTicket}
use tierbuf.Pool.Backend.{TierBackend}
use tierbuf.Pool.Checkout.{set_control}
use tierbuf.Pool.Reclaim.{Store, in_section, table_of, with_table}

-- The store once the frame is claimed and its latch is granted.
abbrev pub claimed :
    (q : ArrayQueue) (T : TierBackend)
    → (Store q T → Store q T)
    → CoolingTicket
    → Store q T
    → Store q T
claimed q T waits ticket s =
    in_section q T ticket.frame_index
      (waits (with_table q T (set_control q ticket.frame_index evicting (table_of q T s)) s))
