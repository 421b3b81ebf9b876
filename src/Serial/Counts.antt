-- ===== src/Serial/Counts.antt =====
-- What the three counting functions of serial.c return for a valid ring.
use grbl_mega_plasma.Prelude.{◌+◌, ◌≡◌, arith, ltb, if◌then◌else◌, length}
use grbl_mega_plasma.Serial.Ring.{
  Ring, IsValid, used, contents, rx_available, rx_count, tx_count, length-window,
}

length-contents : (r : Ring) → length (contents r) ≡ used r
length-contents r = length-window r.buf r.tail (used r)

-- For a valid ring, `serial_get_rx_buffer_available` is the number of bytes that can still be
-- stored (255 less those that wait), and `serial_get_tx_buffer_count` the number that wait.
available_count :
    (r : Ring)
    → IsValid r
    → (rx_available r + length (contents r) ≡ 255) × (tx_count r ≡ length (contents r))
unfolding rx_available tx_count
available_count r v = ground (arith, length-contents r)

-- For a valid ring, `serial_get_rx_buffer_count` is the number of bytes that wait if the head is not
-- below the tail, and one less than that number if the ring goes round the end.
pub rx_count_lem :
    (r : Ring) → IsValid r → rx_count r + (if ltb r.head r.tail then 1 else 0) ≡ length (contents r)
unfolding rx_count
rx_count_lem r v = ground (arith, length-contents r)
