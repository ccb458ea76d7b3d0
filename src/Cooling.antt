-- ===== src/Cooling.antt =====
-- crates/tierbuf/src/cooling.rs: the queue of cooling candidates. The mutex makes each call one
-- step; the head of the list is the front of the `VecDeque`.
pub mod Fifo
mod Tests
use tierbuf.Prelude.{
  ℕ, Bool, true, false, ◌&&◌, ◌||◌, Option, none, some, List, [], ◌∷◌, ◌++◌, length, ◌==◌,
  if◌then◌else◌,
}

pub record CoolingTicket : Type 0 where
  pub frame_index : ℕ
  pub pid : ℕ
  pub generation : ℕ
  pub resident : ℕ

-- The derived `PartialEq`.
unfoldable pub ticket_eq : CoolingTicket → CoolingTicket → Bool
ticket_eq a b =
    a.frame_index == b.frame_index
    && (a.pid == b.pid && (a.generation == b.generation && (a.resident == b.resident)))

unfoldable pub contains : CoolingTicket → List CoolingTicket → Bool
contains t [] = false
contains t (u ∷ us) = ticket_eq u t || contains t us

unfoldable pub push_unique : CoolingTicket → List CoolingTicket → List CoolingTicket
push_unique t entries = if contains t entries then entries else (entries ++ t ∷ [])

unfoldable pub pop : List CoolingTicket → List CoolingTicket × Option CoolingTicket
pop [] = ([], none)
pop (t ∷ ts) = (ts, some t)
