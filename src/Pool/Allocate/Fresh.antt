-- ===== src/Pool/Allocate/Fresh.antt =====
-- A page that is allocated is new, zeroed, and exclusively held.
use tierbuf.Prelude.{
  ℕ, ◌+◌, ◌%◌, ◌^◌, ◌≤◌, ◌<◌, ◌≡◌, ◌≢◌, refl, ap, ◌∙◌, true, false, some, arith, ◌==◌, at_index,
  off_index, update, done,
}
use tierbuf.Swip.{SwipInner, evicted, max_pid, from_pid, try_bind_owner, is_valid}
use tierbuf.Swip.Words.{word_of}
use tierbuf.Swip.Refinement.{encode_evicted_lem}
use tierbuf.Frame.{Frame, evicting, install, publish_reserved_pin, exclusive_section}
use tierbuf.Frame.Queue.{ArrayQueue}
use tierbuf.Frame.Table.{FrameTable, frame, set_frame}
use tierbuf.Pool.Checkout.{checked_out_at, publish_pin, set_control}
use tierbuf.Pool.Allocate.{Manager, write_with, new_handle, occupy}

-- The cell of a new handle.
abbrev pub cell_of : (id pid : ℕ) → SwipInner
cell_of id pid = record { pid = pid; owner_id = id; word = word_of (evicted pid) }

-- A frame after the installation of a new page.
abbrev pub occupied : (pid cell : ℕ) → Frame → Frame
occupied pid cell f = record {
  latch = exclusive_section (exclusive_section f.latch);
  pid = pid;
  owner_swip = some cell;
  dirty = true;
  heat_epoch = 0;
  generation = (f.generation + 1) % 2 ^ 32;
  pin_control = 1;
}

abbrev installed : (pid cell : ℕ) → Frame → Frame
installed pid cell f = record f {
  latch = exclusive_section f.latch;
  owner_swip = some cell;
  dirty = true;
  heat_epoch = 0;
  generation = (f.generation + 1) % 2 ^ 32;
  pid = pid;
}

install-done :
    (pid cell : ℕ) (f : Frame)
    → pid ≤ max_pid
    → f.pin_control ≡ evicting
    → install pid cell f
      ≡ done (record (installed pid cell f) { dirty = false }, (f.generation + 1) % 2 ^ 32)
unfolding install is_valid
install-done pid cell f small reserved = ground (arith, reserved)

module _ (q : ArrayQueue) {Page : Type 0} where
  pub new_handle-done :
      (pid : ℕ) (m : Manager q Page)
      → pid ≤ max_pid
      → 0 < m.id
      → new_handle q pid m
        ≡ done (record m {
          cells = update m.cells m.next_cell (cell_of m.id pid);
          next_cell = m.next_cell + 1;
        })
  unfolding new_handle from_pid try_bind_owner is_valid
  new_handle-done pid m small own = ground (arith, encode_evicted_lem pid small)

  pub frame_read :
      (i : ℕ) (f : Frame) (t : FrameTable q Page)
      → i < t.frame_count
      → t.frames i ≡ f
      → frame q i t ≡ done f
  unfolding frame
  frame_read i f t lt e = ground (arith, e)

  -- One frame and its bytes have changed.
  pub record Changed (t t' : FrameTable q Page) (i : ℕ) (f : Frame) (content : Page) : Type 0 where
    pub count : t'.frame_count ≡ t.frame_count
    pub free : t'.free ≡ t.free
    pub membership : t'.free_membership ≡ t.free_membership
    pub here : t'.frames i ≡ f
    pub bytes : t'.page i ≡ content
    pub elsewhere : (j : ℕ) → i ≢ j → (t'.frames j ≡ t.frames j) × (t'.page j ≡ t.page j)

  set_frame-Changed :
      (t t' : FrameTable q Page) (i : ℕ) (f g : Frame) (bytes : Page)
      → Changed t t' i f bytes
      → Changed t (set_frame q i g t') i g bytes
  unfolding set_frame
  set_frame-Changed t t' i f g bytes c = record {
    count = c.count;
    free = c.free;
    membership = c.membership;
    here = at_index t'.frames i g i refl;
    bytes = c.bytes;
    elsewhere = λ j n. (off_index t'.frames i g j n ∙ (c.elsewhere j n).0, (c.elsewhere j n).1);
  }

  write_with-Changed :
      (i : ℕ) (f : Frame) (bytes : Page) (t : FrameTable q Page)
      → i < t.frame_count
      → t.frames i ≡ f
      → (t' : FrameTable q Page) × (write_with q i bytes t ≡ done t')
        × Changed t t' i (record f { latch = exclusive_section f.latch }) bytes
  unfolding write_with set_frame
  write_with-Changed i f bytes t lt e =
      let g = record f { latch = exclusive_section f.latch } in
      (
        record t { frames = update t.frames i g; page = update t.page i bytes },
        rw (frame_read i f t lt e) refl,
        record {
          count = refl;
          free = refl;
          membership = refl;
          here = at_index t.frames i g i refl;
          bytes = at_index t.page i bytes i refl;
          elsewhere = λ j n. (off_index t.frames i g j n, off_index t.page i bytes j n);
        },
      )

  publish_pin-done :
      (i : ℕ) (g : Frame) (t : FrameTable q Page)
      → i < t.frame_count
      → t.frames i ≡ g
      → g.pin_control ≡ evicting
      → publish_pin q (checked_out_at i) t
        ≡ done (
          set_frame q i (record g { pin_control = 1 }) t,
          record { index = i; active = true; reserved = false },
        )
  unfolding publish_pin publish_reserved_pin set_control
  publish_pin-done i g t lt e reserved = rw (frame_read i g t lt e) (
      let same : (g.pin_control == evicting) ≡ true = ground (arith, reserved) in
      rw same (
        ap
          (λ h. done (
            set_frame q i (record h { pin_control = 1 }) t,
            record { index = i; active = true; reserved = false },
          ))
          e))

  pub occupy-Changed :
      (zeroed : Page) (pid cell i : ℕ) (t : FrameTable q Page)
      → pid ≤ max_pid
      → i < t.frame_count
      → (t.frames i).pin_control ≡ evicting
      → (t' : FrameTable q Page) × (occupy q zeroed pid cell (checked_out_at i) t
          ≡ done (t', record { index = i; active = true; reserved = false }))
        × Changed t t' i (occupied pid cell (t.frames i)) zeroed
  unfolding occupy
  occupy-Changed zeroed pid cell i t small lt reserved =
      let f = t.frames i in
      let (t1, e1, c1) = write_with-Changed i f zeroed t lt refl in
      let lt1 : i < t1.frame_count = omega (arith, c1.count) in
      let e2 = frame_read i _ t1 lt1 c1.here in
      let e3 =
        install-done pid cell (record f { latch = exclusive_section f.latch }) small reserved in
      let g = installed pid cell (record f { latch = exclusive_section f.latch }) in
      let t2 = set_frame q i g t1 in
      let c2 = set_frame-Changed t t1 i _ g zeroed c1 in
      let e4 = publish_pin-done i g t2 (omega (arith, c2.count)) c2.here reserved in
      (
        set_frame q i (record g { pin_control = 1 }) t2,
        rw e1 (rw e2 (rw e3 e4)),
        set_frame-Changed t t2 i g (record g { pin_control = 1 }) zeroed c2,
      )
