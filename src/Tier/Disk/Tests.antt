-- ===== src/Tier/Disk/Tests.antt =====
-- The theorems of `Tier.Disk` at concrete inputs.
use tierbuf.Prelude.{ℕ, ◌+◌, List, [], ◌∷◌}
use tierbuf.Tier.Disk.{interrupted, Syscall, moved, failed, Buffer}

-- Four bytes, in calls that move one byte, are interrupted, and move the rest.
abbrev buffer : Buffer
buffer = record { size = 4; byte = λ i. i + 10 }

abbrev blank : ℕ → ℕ
blank p = 0

abbrev halting : List Syscall
halting = moved 1 ∷ failed interrupted ∷ moved 2 ∷ moved 9 ∷ moved 1 ∷ []
