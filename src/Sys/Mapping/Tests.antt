-- ===== src/Sys/Mapping/Tests.antt =====
-- A pool of two frames.
use tierbuf.Prelude.{ℕ, ◌+◌, ◌^◌, arith, leb, if◌then◌else◌}
use tierbuf.Tier.Disk.{IoResult, ok, err, storage_full}
use tierbuf.Sys.Mapping.{AlignedPool, new_pool}
use tierbuf.Sys.Mapping.Bounds.{IsMmap, IsPool, Made, new_pool-Made}
use tierbuf.Sys.Mapping.Bytes.{Stored, write_frame-Stored}

-- A system that maps everything at one address, if it fits.
abbrev maps : ℕ → IoResult ℕ
maps len = if leb (4096 + len) (2 ^ 64) then ok 4096 else err storage_full

maps-IsMmap : IsMmap maps
maps-IsMmap len base e = ground arith

new_pool-Made_example : Made maps 131072 (new_pool maps 131072)
new_pool-Made_example = new_pool-Made maps 131072 maps-IsMmap

abbrev pool : AlignedPool
pool = record { mapping = 4096; mapping_len = 196607; aligned_start = 65536; frame_count = 2 }

pool-IsPool : IsPool pool
pool-IsPool = record {
  aligned = omega arith;
  after = omega arith;
  inside = omega arith;
  fits = omega arith;
}

write_frame-Stored_example : Stored pool 0 1 (λ k. 7) (λ a. 0)
write_frame-Stored_example =
    write_frame-Stored pool 0 1 (λ k. 7) (λ a. 0) pool-IsPool (omega arith) (omega arith)
