-- ===== src/Serial.antt =====
-- serial.c: the two byte rings between the UART's interrupts and the main program.
-- `RX_RING_BUFFER` and `TX_RING_BUFFER` are 256 and the indices are `uint8_t`. The registers are the
-- bit UDRIE0 and the bytes written to UDR0; the set-up of the baud rate is not modelled.
pub mod Ring
pub mod Counts
pub mod Transmit
pub mod Receive
mod Tests
