-- ===== src/Tier/Mock/Runs.antt =====
-- Runs of calls on a mock tier, from its creation on.
use tierbuf.Prelude.{
  ℕ, ◌*◌, ◌/◌, ◌%◌, ◌^◌, ◌<◌, ◌≡◌, ◌≢◌, refl, subst, ◌⊎◌, List, [], ◌∷◌, arith, Run, done, panicked,
  ◌>>=◌, All,
}
use tierbuf.Tier.Disk.{invalid_input, ok, err}
use tierbuf.Tier.File.{page_size}
use tierbuf.Tier.Mock.{MockTier, new_mock, empty_state, used_bytes}
use tierbuf.Tier.Mock.Slots.{empty-IsState}
use tierbuf.Tier.Mock.Device.{
  IsMock, Call, read_call, write_call, free_call, fail_call, Reply, serve, serve_all, device, Step,
  Steps, stop, go, Served, IsCall,
}
use tierbuf.Tier.Mock.Answers.{fail-Served, write-Served, free-Served}
use tierbuf.Tier.Mock.Reads.{read-Served}

pub serve-Served : (c : Call) (t : MockTier) → IsMock t → IsCall c → Served c t (serve c t)
serve-Served (read_call l b) t v w = read-Served l b t v
serve-Served (write_call b) t v w = write-Served b t v
serve-Served (free_call l) t v w = free-Served l t v
serve-Served (fail_call nth) t v w = fail-Served nth t v w

-- A run that does not panic and does what the device does.
abbrev pub Behaves : List Call → MockTier → Run (MockTier × List Reply) → Type 0
Behaves cs t panicked = ⊥
Behaves cs t (done (t', rs)) = IsMock t' × Steps t.slot_count cs rs (device t) (device t')

later :
    (c : Call) (cs : List Call) (t t' : MockTier) (r : Reply)
    → t'.slot_count ≡ t.slot_count
    → Step t.slot_count c r (device t) (device t')
    → (run : Run (MockTier × List Reply)) → Behaves cs t' run
    → Behaves (c ∷ cs) t (run >>= λ (w : MockTier × List Reply). done (w.0, r ∷ w.1))
later c cs t t' r size step panicked h = h
later c cs t t' r size step (done (t'', rs)) (v, steps) =
    (v, go step (subst (λ n. Steps n cs rs (device t') (device t'')) size steps))

after_call :
    (c : Call) (cs : List Call) (t : MockTier) (run : Run (MockTier × Reply))
    → Served c t run
    → ((t' : MockTier) → IsMock t' → Behaves cs t' (serve_all cs t'))
    → Behaves (c ∷ cs) t (
        run >>= λ (x : MockTier × Reply).
        (serve_all cs x.0 >>= λ (w : MockTier × List Reply). done (w.0, x.1 ∷ w.1)))
after_call c cs t panicked h rest = h
after_call c cs t (done (t', r)) (size, v, step) rest =
    later c cs t t' r size step (serve_all cs t') (rest t' v)

-- Calls on a well-formed mock tier do not panic, leave it well-formed and answer as the abstract
-- device does.
pub serve_all-Behaves :
    (cs : List Call) (t : MockTier) → IsMock t → All IsCall cs → Behaves cs t (serve_all cs t)
unfolding serve_all
serve_all-Behaves [] t v w = (v, stop)
serve_all-Behaves (c ∷ cs) t v w =
    after_call c cs t (serve c t) (serve-Served c t v w.0) (λ t' v'. serve_all-Behaves cs t' v' w.1)

-- A mock tier of a valid capacity is well-formed, and any other capacity is refused.
pub new_mock_lem :
    (capacity : ℕ)
    → capacity < 2 ^ 64
    → ((0 < capacity) × (capacity % page_size ≡ 0)
        → (t : MockTier) × (new_mock capacity ≡ ok t)
          × IsMock t
          × (used_bytes t ≡ 0)
          × (t.slot_count * page_size ≡ capacity))
      × ((capacity ≡ 0) ⊎ (capacity % page_size ≢ 0) → new_mock capacity ≡ err invalid_input)
unfolding new_mock used_bytes
new_mock_lem capacity lt = (
  (λ h.
      let t : MockTier = record {
        capacity_bytes = capacity;
        slot_count = capacity / page_size;
        state = empty_state;
      } in
      (
        t,
        ground arith,
        record {
          sized = omega arith;
          fits = lt;
          next_le = omega arith;
          state = empty-IsState;
          armed = tt;
        },
        refl,
        omega arith,
      )),
  (λ h. ground arith),
)
