-- ===== src/Pool/Cooler/Tests.antt =====
-- Two searches over a hundred frames, and a mark of frame 0.
use tierbuf.Prelude.{ℕ, ◌<◌, ◌≡◌, refl, inl, ◌⊎◌, true, false, some, [], ◌∷◌, In, arith, done}
use tierbuf.Swip.{is_valid, from_encoded, new_page_id}
use tierbuf.Frame.{Frame, frame_pid}
use tierbuf.Pool.Fix.{World}
use tierbuf.Pool.Fix.Kept.{Owned}
use tierbuf.Pool.Cooler.{sample, windows, mark, candidates, sort_by_key, enqueue_cold}
use tierbuf.Pool.Cooler.Windows.{cursor_after, sample-Covers}
use tierbuf.Pool.Cooler.Marks.{is_idle, Marks, mark-Marks}

abbrev frame_of : (heat : ℕ) → Frame
frame_of heat = record {
  latch = 0;
  pid = 0;
  owner_swip = some 0;
  dirty = false;
  heat_epoch = heat;
  generation = 1;
  pin_control = 0;
}

abbrev one_hot : World
one_hot = record {
  view = record {
    id = 1;
    layout = record { base = 4096; element_size = 64 };
    frame_count = 2;
    frames = λ i. frame_of 0;
    cells = λ c. record { pid = 0; owner_id = 1; word = 4096 };
    pages = λ p. some 0;
  };
  cooling = [];
  prefetched = [];
  stats = [];
}

one_hot-Owned : Owned one_hot.view 0 0 0 4096
unfolding frame_pid is_valid from_encoded new_page_id
one_hot-Owned = record {
  laid = record {
    nonnull = omega arith;
    sized = omega arith;
    base_aligned = omega arith;
    size_aligned = omega arith;
    fits = omega arith;
  };
  inside = omega arith;
  address = omega arith;
  resident = record { nonzero = omega arith; aligned = omega arith; fits = omega arith };
  names = refl;
  owned = refl;
  shows = inl (record {
    page = refl;
    valid = record { nonzero = omega arith; aligned = omega arith; fits = omega arith };
    word = refl;
    own = λ q e. ground arith;
  });
}

sample-Covers_example : (k : ℕ) × k < windows 100 × In 3 (sample 100 (cursor_after k 100 70)).0
unfolding windows
sample-Covers_example = sample-Covers 100 70 3 (omega arith) (omega arith)

mark-Marks_example :
    ((is_idle (frame_of 0) ≡ true) × Marks 0 0 0 4096 one_hot (mark 0 one_hot))
    ⊎ ((is_idle (frame_of 0) ≡ false) × (mark 0 one_hot ≡ done one_hot))
mark-Marks_example = mark-Marks 0 0 0 4096 one_hot (omega arith) one_hot-Owned

second_window : (sample 100 70).1 ≡ 134
unfolding sample tierbuf.Pool.Cooler.sample_count
second_window = refl

sorted : sort_by_key ((2, 5) ∷ (1, 7) ∷ (1, 3) ∷ []) ≡ (1, 3) ∷ (1, 7) ∷ (2, 5) ∷ []
unfolding sort_by_key tierbuf.Pool.Cooler.insert_by_key tierbuf.Pool.Cooler.colder
sorted = refl
