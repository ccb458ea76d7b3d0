-- ===== src/Tier/Mock/Device.antt =====
-- The calls of a mock tier against an abstract device: pages by location, a count of them, and the
-- reads that are left until the injected failure.
use tierbuf.Prelude.{
  ℕ, suc, zero, ◌+◌, ◌-◌, ◌*◌, ◌%◌, ◌^◌, ◌≤◌, ◌<◌, ◌≡◌, ◌≢◌, ◌⊎◌, Option, none, some, List, [], ◌∷◌,
  length, get, Run, done, panicked, ◌>>=◌,
}
use tierbuf.Tier.Disk.{invalid_input, not_found, storage_full, other, IoResult, ok, err, Buffer}
use tierbuf.Tier.File.{page_size}
use tierbuf.Tier.Mock.{MockTier, fail_nth_read, read, write, free}
use tierbuf.Tier.Mock.Slots.{IsState}

-- A failure is set for an attempt that has not been made.
abbrev pub IsArmed : Option ℕ → ℕ → Type 0
IsArmed none attempts = Unit
IsArmed (some n) attempts = (attempts < n) × (n < 2 ^ 64)

pub record IsMock (t : MockTier) : Type 0 where
  pub sized : t.capacity_bytes ≡ t.slot_count * page_size
  pub fits : t.capacity_bytes < 2 ^ 64
  pub next_le : t.state.next_slot ≤ t.slot_count
  pub state : IsState t.state.pages t.state.free_slots t.state.next_slot
  pub armed : IsArmed t.state.fail_read_at t.state.read_attempts

pub data Call : Type 0 where
  read_call : (location : ℕ) → Buffer → Call
  write_call : Buffer → Call
  free_call : (location : ℕ) → Call
  fail_call : (nth : Option ℕ) → Call

pub data Reply : Type 0 where
  read_reply : Buffer × IoResult (Unit {0}) → Reply
  write_reply : IoResult ℕ → Reply
  free_reply : Reply
  fail_reply : IoResult (Unit {0}) → Reply

unfoldable pub serve : Call → MockTier → Run (MockTier × Reply)
serve (read_call l b) t = let (t', r) = read l b t in done (t', read_reply r)
serve (write_call b) t = do (t', r) ← write b t; done (t', write_reply r)
serve (free_call l) t = done (free l t, free_reply)
serve (fail_call nth) t = let (t', r) = fail_nth_read nth t in done (t', fail_reply r)

unfoldable pub serve_all : List Call → MockTier → Run (MockTier × List Reply)
serve_all [] t = done (t, [])
serve_all (c ∷ cs) t = do (t', r) ← serve c t; (t'', rs) ← serve_all cs t'; done (t'', r ∷ rs)

-- The abstract device. `fuse` counts the reads up to the one that fails.
pub record Device : Type 0 where
  pub page : ℕ → Option Buffer
  pub used : ℕ
  pub fuse : Option ℕ

abbrev pub fuse_of : Option ℕ → ℕ → Option ℕ
fuse_of none attempts = none
fuse_of (some n) attempts = some (n - attempts)

abbrev pub device : MockTier → Device
device t = record {
  page = λ l. get l t.state.pages;
  used = length t.state.pages;
  fuse = fuse_of t.state.fail_read_at t.state.read_attempts;
}

abbrev pub SamePages : Device → Device → Type 0
SamePages d d' = ((l : ℕ) → d'.page l ≡ d.page l) × (d'.used ≡ d.used)

-- A read that reaches the device burns the fuse.
abbrev pub burnt : Option ℕ → Option ℕ
burnt (some (suc (suc n))) = some (suc n)
burnt _ = none

abbrev pub delivered : (fuse : Option ℕ) → Buffer → Option Buffer → Buffer × IoResult (Unit {0})
delivered (some (suc zero)) b o = (b, err other)
delivered fuse b none = (b, err not_found)
delivered fuse b (some page) = (record b { byte = page.byte }, ok tt)

-- A call of `slots` slots with its reply, and the device before and after it.
abbrev pub Step : (slots : ℕ) → Call → Reply → Device → Device → Type 0
Step slots (read_call l b) (read_reply r) d d' =
    SamePages d d'
    × (((b.size ≡ page_size)
          × (l % page_size ≡ 0)
          × (l < slots * page_size)
          × (d'.fuse ≡ burnt d.fuse)
          × (r ≡ delivered d.fuse b (d.page l)))
        ⊎ (((b.size ≢ page_size) ⊎ (l % page_size ≢ 0) ⊎ (slots * page_size ≤ l))
            × (d'.fuse ≡ d.fuse)
            × (r ≡ (b, err invalid_input))))
Step slots (write_call b) (write_reply (ok l)) d d' =
    (b.size ≡ page_size)
    × (l % page_size ≡ 0)
    × (l < slots * page_size)
    × (d.page l ≡ none)
    × (d'.page l ≡ some b)
    × ((k : ℕ) → k ≢ l → d'.page k ≡ d.page k)
    × (d'.used ≡ d.used + 1)
    × (d'.fuse ≡ d.fuse)
Step slots (write_call b) (write_reply (err invalid_input)) d d' = (b.size ≢ page_size) × (d' ≡ d)
Step slots (write_call b) (write_reply (err storage_full)) d d' =
    (b.size ≡ page_size) × (d.used ≡ slots) × (d' ≡ d)
Step slots (free_call l) free_reply d d' =
    (d'.page l ≡ none)
    × ((k : ℕ) → k ≢ l → d'.page k ≡ d.page k)
    × (((d.page l ≡ none) × (d'.used ≡ d.used)) ⊎ ((d.page l ≢ none) × (d'.used + 1 ≡ d.used)))
    × (d'.fuse ≡ d.fuse)
Step slots (fail_call nth) (fail_reply r) d d' =
    SamePages d d'
    × (((nth ≡ some 0) × (d'.fuse ≡ d.fuse) × (r ≡ err invalid_input))
        ⊎ ((nth ≢ some 0) × (d'.fuse ≡ nth) × (r ≡ ok tt)))
Step slots _ _ d d' = ⊥

-- A list of calls with their replies.
pub data Steps (slots : ℕ) : List Call → List Reply → Device → Device → Type 0 where
  stop : {d : Device} → Steps slots [] [] d d
  go :
      {c : Call} {cs : List Call} {r : Reply} {rs : List Reply} {d d' d'' : Device}
      → Step slots c r d d'
      → Steps slots cs rs d' d''
      → Steps slots (c ∷ cs) (r ∷ rs) d d''

-- The call did not panic, left a well-formed tier of the same size and did what the device does.
abbrev pub Served : Call → MockTier → Run (MockTier × Reply) → Type 0
Served c t panicked = ⊥
Served c t (done (t', r)) =
    (t'.slot_count ≡ t.slot_count) × IsMock t' × Step t.slot_count c r (device t) (device t')

-- `fail_nth_read` takes a `u64`.
abbrev pub IsCall : Call → Type 0
IsCall (fail_call (some n)) = n < 2 ^ 64
IsCall _ = Unit
