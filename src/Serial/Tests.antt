-- ===== src/Serial/Tests.antt =====
-- The serial laws on concrete rings.
use grbl_mega_plasma.Prelude.{◌≡◌, refl, true, List, [], ◌∷◌, ◌++◌, arith, set, replicate}
use grbl_mega_plasma.Fixtures.{idle_machine, armed_alarms, empty_ring}
use grbl_mega_plasma.Serial.Ring.{Ring, IsValid}
use grbl_mega_plasma.Serial.Transmit.{
  Tx, IsValidTx, nothing, interrupt, stored, serial_write, stream, after, accepted,
  serial_write-stream, serial_write_progress,
}
use grbl_mega_plasma.Serial.Receive.{World}
use grbl_mega_plasma.Serial.Receive.Laws.{
  Event, comes, reads, run, run_queue, arrive, take_oldest, rx_refines,
}

abbrev wrapped_ring : Ring
wrapped_ring = record { buf = set (set (replicate 256 0) 254 7) 255 8; head = 0; tail = 254 }

wrapped_ring-IsValid : IsValid wrapped_ring
wrapped_ring-IsValid = record { storage = refl; head_in = omega arith; tail_in = omega arith }

empty_ring-IsValid : IsValid empty_ring
empty_ring-IsValid = record { storage = refl; head_in = omega arith; tail_in = omega arith }

abbrev full_ring : Ring
full_ring = record { buf = replicate 256 5; head = 254; tail = 255 }

full_ring-IsValid : IsValid full_ring
full_ring-IsValid = record { storage = refl; head_in = omega arith; tail_in = omega arith }

-- The transmit interrupt is enabled, 255 bytes wait.
abbrev full_tx : Tx
full_tx = record { ring = full_ring; udrie = true; sent = [] }

full_tx-IsValid : IsValidTx full_tx
full_tx-IsValid = record {
  ring_valid = full_ring-IsValid;
  streaming = λ e. cc;
  pending = λ _. omega arith;
}

serial_write-stream_example :
    IsValidTx (after (serial_write 9 (nothing ∷ interrupt ∷ []) full_tx))
    × (stream (after (serial_write 9 (nothing ∷ interrupt ∷ []) full_tx))
        ≡ stream full_tx ++ accepted 9 (serial_write 9 (nothing ∷ interrupt ∷ []) full_tx))
serial_write-stream_example =
    serial_write-stream 9 (nothing ∷ interrupt ∷ []) full_tx full_tx-IsValid

serial_write_progress_example : (u : Tx) × (serial_write 9 (interrupt ∷ []) full_tx ≡ stored u)
serial_write_progress_example = serial_write_progress 9 [] full_tx full_tx-IsValid

abbrev test_world : World
test_world = record { machine = idle_machine; alarms = armed_alarms; rx = empty_ring }

-- `G`, a feed hold, `0`, and three reads: the hold does not reach the reader.
abbrev test_events : List Event
test_events = comes b'G' ∷ comes b'!' ∷ comes b'0' ∷ reads ∷ reads ∷ reads ∷ []

rx_refines_example : run test_world test_events ≡ b'G' ∷ b'0' ∷ 0xff ∷ []
unfolding run_queue arrive take_oldest
rx_refines_example =
    rx_refines test_world test_events empty_ring-IsValid
      (omega arith, (omega arith, (omega arith, tt)))
