-- ===== src/Heat/Tests.antt =====
-- The theorems of `Heat` at concrete inputs.
use tierbuf.Prelude.{◌+◌, ◌*◌, ◌^◌, ◌≡◌, refl, true, false, List, [], ◌∷◌, arith}
use tierbuf.Heat.{
  heat_one, pack_heat_epoch, unpack_heat_epoch, decay, epochs_since, on_epoch, current_heat_raw,
  on_access, on_access_once,
}
use tierbuf.Heat.Decay.{Event, access, epoch_end, Tracked, track, eager, track-eager}
use tierbuf.Heat.Rounds.{Round, on_access_once-stale}

-- The test `four_epochs_decay_one_access_to_one_sixteenth` of the source.
abbrev four_epochs : List Event
four_epochs = access ∷ epoch_end ∷ epoch_end ∷ epoch_end ∷ epoch_end ∷ access ∷ []

abbrev unused : Tracked
unused = record { epoch = 0; word = 0 }

four_epochs_result : (track four_epochs unused).word ≡ 4 * 2 ^ 32 + (heat_one + 2 ^ 20)
unfolding track on_access on_access_once unpack_heat_epoch on_epoch pack_heat_epoch epochs_since
    decay
four_epochs_result = refl

track-eager_example :
    current_heat_raw (track four_epochs unused).epoch (track four_epochs unused).word
    ≡ eager four_epochs (current_heat_raw 0 0)
unfolding unpack_heat_epoch epochs_since
track-eager_example = track-eager four_epochs unused (omega arith) (omega arith) (omega arith)

-- One call, a call whose exchange fails spuriously, and one that observed an older pair.
abbrev three_rounds : List Round
three_rounds =
    record { spurious = false; observed = (0, 0) }
    ∷ record { spurious = true; observed = (heat_one, 0) }
    ∷ record { spurious = false; observed = (0, 0) }
    ∷ []

-- Another thread has stored a pair of the next epoch.
on_access_once-stale_example :
    (on_access_once false 7 (heat_one, 8) (pack_heat_epoch heat_one 8)).0
    ≡ pack_heat_epoch heat_one 7
on_access_once-stale_example =
    on_access_once-stale heat_one 7 1 (omega arith) (omega arith) (omega arith)
