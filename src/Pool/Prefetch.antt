-- ===== src/Pool/Prefetch.antt =====
-- `prefetch` of crates/tierbuf/src/pool.rs with its reservations and its bounded channel. Workers and
-- other calls act between two requests; what a request does is one step, but for the flag that
-- `shutdown` sets, which is read twice. Sets are maps without values.
pub mod Submissions
mod Tests
use tierbuf.Prelude.{
  ℕ, ◌+◌, ◌-◌, ◌^◌, min, Bool, true, false, not, ◌&&◌, ◌||◌, Option, none, some, List, [], ◌∷◌,
  ◌++◌, length, ltb, leb, ◌==◌, if◌then◌else◌, Run, done, panicked, ◌>>=◌, ◌>>◌, assert, HashMap,
  get, insert, remove,
}
use tierbuf.Swip.{SwipState, hot, cooling, evicted, belongs_to, load}
use tierbuf.Pool.Handles.{View, is_cell}

abbrev pub max_prefetch_in_flight : ℕ
max_prefetch_in_flight = 128

abbrev pub HashSet : Type 0
HashSet = HashMap (Unit {0})

pub record PrefetchTask : Type 0 where
  pub pid : ℕ
  pub frame : ℕ

-- What the calls share: `queue` is the channel, its head the task that was sent last; `returned` are
-- the frames that went back to the free queue.
pub record Channel : Type 0 where
  pub in_flight : ℕ
  pub pending : HashSet
  pub queue : List PrefetchTask
  pub returned : List ℕ

abbrev pub is_evicted_as : ℕ → SwipState → Bool
is_evicted_as pid (evicted named) = named == pid
is_evicted_as pid _ = false

unfoldable pub canonical_evicted_pid : View → (cell : ℕ) → Run (Option ℕ)
canonical_evicted_pid v cell =
    let swip = v.cells cell in
    if not (belongs_to v.id swip) then done none else (do
      state ← load swip
      done (
          if not (is_evicted_as swip.pid state)
          then none
          else if is_cell cell (v.pages swip.pid)
          then some swip.pid
          else none))

abbrev pub is_absent : Option (Unit {0}) → Bool
is_absent none = true
is_absent (some _) = false

-- `HashSet::insert`: whether the element is new.
unfoldable pub insert_new : ℕ → HashSet → HashSet × Bool
insert_new pid s = if is_absent (get pid s) then (insert pid tt s, true) else (s, false)

-- The update of `prefetch_in_flight`.
unfoldable pub reserve_slot : Channel → Channel × Bool
reserve_slot c =
    if ltb c.in_flight max_prefetch_in_flight
    then (record c { in_flight = c.in_flight + 1 }, true)
    else (c, false)

-- `PrefetchReservation::drop`
unfoldable pub drop_reservation : ℕ → Channel → Run Channel
drop_reservation pid c = do
  assert (ltb 0 c.in_flight)
  done (record c { pending = remove pid c.pending; in_flight = c.in_flight - 1 })

-- A task that is dropped gives back its frame, then its reservation.
unfoldable pub drop_task : PrefetchTask → Channel → Run Channel
drop_task task c = drop_reservation task.pid (record c { returned = task.frame ∷ c.returned })

-- What a request meets: the flag, its page if it is canonical and evicted, the policy's answer, the
-- checked-out frame, the flag again, and whether the workers still receive.
pub record Request : Type 0 where
  pub stopping : Bool
  pub page : Option ℕ
  pub admit : Bool
  pub checkout : Option ℕ
  pub stopping_again : Bool
  pub connected : Bool

-- The variables of the loop.
pub record Counts : Type 0 where
  pub submitted : ℕ
  pub skipped : ℕ
  pub seen : HashSet

abbrev pub saturating_inc : ℕ → ℕ
saturating_inc n = min (n + 1) (2 ^ 64 - 1)

abbrev pub skip : Counts → Counts
skip k = record k { skipped = saturating_inc k.skipped }

-- `try_send` on the channel of that capacity.
unfoldable pub try_send : (connected : Bool) → PrefetchTask → Channel → Channel × Bool
try_send connected task c =
    if connected && ltb (length c.queue) max_prefetch_in_flight
    then (record c { queue = task ∷ c.queue }, true)
    else (c, false)

unfoldable pub sent : PrefetchTask → Counts → Channel × Bool → Run (Channel × Counts)
sent task k (c, true) = done (c, record k { submitted = saturating_inc k.submitted })
sent task k (c, false) = do c' ← drop_task task c; done (c', skip k)

unfoldable pub with_checkout :
    Request → (pid : ℕ) → Option ℕ → Counts → Channel → Run (Channel × Counts)
with_checkout r pid none k c = do c' ← drop_reservation pid c; done (c', skip k)
with_checkout r pid (some frame) k c =
    let task : PrefetchTask = record { pid = pid; frame = frame } in
    if r.stopping_again
    then (do c' ← drop_task task c; done (c', skip k))
    else sent task k (try_send r.connected task c)

unfoldable pub with_slot : Request → (pid : ℕ) → Counts → Channel × Bool → Run (Channel × Counts)
with_slot r pid k (c, false) = done (record c { pending = remove pid c.pending }, skip k)
with_slot r pid k (c, true) = with_checkout r pid r.checkout k c

unfoldable pub with_pending :
    Request → (pid : ℕ) → Counts → Channel → HashSet × Bool → Run (Channel × Counts)
with_pending r pid k c (pending, false) = done (c, skip k)
with_pending r pid k c (pending, true) =
    with_slot r pid k (reserve_slot (record c { pending = pending }))

unfoldable pub with_seen :
    Request → (pid : ℕ) → Counts → Channel → HashSet × Bool → Run (Channel × Counts)
with_seen r pid k c (seen, fresh) =
    let k' : Counts = record k { seen = seen } in
    if not fresh || not r.admit
    then done (c, skip k')
    else with_pending r pid k' c (insert_new pid c.pending)

unfoldable pub with_page : Request → Option ℕ → Counts → Channel → Run (Channel × Counts)
with_page r none k c = done (c, skip k)
with_page r (some pid) k c = with_seen r pid k c (insert_new pid k.seen)

-- The body of the loop.
unfoldable pub request : Request → Counts → Channel → Run (Channel × Counts)
request r k c =
    if r.stopping || leb max_prefetch_in_flight k.submitted
    then done (c, skip k)
    else with_page r r.page k c

-- `others` is what happens before each request.
unfoldable pub prefetch :
    List ((Channel → Channel) × Request) → Counts → Channel → Run (Channel × Counts)
prefetch [] k c = done (c, k)
prefetch ((others, r) ∷ rs) k c = do (c', k') ← request r k (others c); prefetch rs k' c'

abbrev pub no_requests : Counts
no_requests = record { submitted = 0; skipped = 0; seen = [] }
