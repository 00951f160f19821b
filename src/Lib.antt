-- ===== src/Lib.antt =====
-- nrf54l15-sniffer: the firmware of an 802.15.4 and Bluetooth LE sniffer on the nRF54L15 (src/*.c).
--
-- The radios hear packets, the batchers (batch.c for 802.15.4, the batches of radio_ble.c) put them
-- into frames, the link (link.c) sends the frames to the host over the serial line and reads frames
-- from it, and the control channel (control.c) executes the commands in these frames.
--
-- Files, and the code that each is about:
--   Base and its children: lists over native numbers, buffers, machine words, error codes.
--   Wire, Commands: what the firmware takes from the submodule shared/ (frame.h, frame.c,
--     commands.h). Their functions and numbers are parameters; IsWire and IsCommands state what the
--     firmware relies on.
--   RingBuf, Radio154.Driver, Hci, Board.Regulator: Zephyr's ring buffer, 802.15.4 driver, raw HCI
--     and regulator driver, parameters in the same way (IsRingBuf, IsRadioDriver, IsRegulator).
--   Link: link.c. sn_link_send is `send`, drain is `drain` and one turn of reader is `reader_turn`; a
--     mutex or a single thread makes each one step. Link.Transmit has tx_thread in the steps between
--     which the DMA's interrupt and sn_link_send may come; Link.Uart has the callbacks, sn_link_init
--     and Zephyr's UART driver, a parameter (IsUart). Link.Uart.Double is about the two receive
--     buffers, Link.Uart.Receive about the whole way from the UART to the frame handler.
--   LinkApi: link.h as the other modules use it. Link.link_api implements it, and `recording` keeps
--     a list of the frames given to any link; LinkApi.Carried reads packets from that list.
--   Batch: batch.c. sn_batch_add is `add`, sn_batch_flush is `flush`; Batch.Format is an independent
--     decoder of the frames, Batch.Invariant and Batch.Books the invariants.
--   Radio154: radio154.c. Radio154.Agree compares its variables with the driver's state, and
--     Radio154.Init is sn_radio154_init with the mode that it sets (IsRadioSetup).
--   Ble: radio_ble.c. Ble.Command is hci_command, Ble.Batch the batches with an
--     independent decoder of their frames (Ble.Batch.Format), Ble.Setup the filter, the
--     keys, and the commands of sn_radio_ble_start and sn_radio_ble_stop; Ble.Events is what the
--     forwarding thread notices, Ble.Work the work items, Ble.Forward the thread itself (a turn of
--     fwd_loop is `receive`), and Ble.Life any order of all these steps. Ble.Late has a work item's
--     answer after a STOP. Ble.Delivered and Ble.Counted hold the frames sent in such a run against
--     what was heard and what was counted.
--   Board, Control: the state of the whole board, and control.c. sn_control_handle is `handle`, the
--     cases of its switch are `execute`.
--   Stats, Startup, Conformance: stats_tick, main and conformance_burst of main.c; Startup has
--     sn_radio_ble_init too.
--   Firmware: all that can happen to the board, frames of the host, packets, timers and work items, as
--     steps in any order on its one state. Firmware.Always is what holds all along;
--     Radio154.Tuned, Control.Tuned and Control.Passive are what each part of it contributes;
--     Firmware.Answers is about the replies among all frames, Firmware.Hosted about the way from the
--     UART to them.
--   LogBackend: log_backend_sn.c. Zephyr's log formatter is a parameter (IsLogOutput).
--   Tests: a concrete board, and every theorem at a concrete input.
--
-- Numbers are natural numbers and wrap where the C types do: counters at 2 ^ 32, the sequence number
-- at 2 ^ 16, time differences at 2 ^ 64. A function returns its result and the state after it.
-- Loops over lists and counts are structural; the loop of drain runs on the number of bytes in the
-- buffer as fuel, which is enough, since every turn but the last takes at least one byte. The threads
-- of the link, the calls of the batcher and the work of radio_ble.c are lists of steps in any order.
--
-- A command to the Bluetooth controller and its answer are one step (hci_command waits for two seconds
-- at most), and so is a whole work item and a measurement of energy: what other threads do in that time
-- is taken to come before or after, and of the events that come in it only the answers to commands are
-- looked at. Two places go further: Ble.Late, and `deliver` of Radio154.Receive, which has what the
-- 802.15.4 driver delivers in the middle of a measurement. A tick of the statistics does not schedule
-- the next one; it may come at any time.
--
-- Not modelled: the log messages that the code itself writes, the names and priorities of threads,
-- and the sleeps and busy waits between steps. The code of the submodule and of Zephyr is not in the
-- repository and stands as parameters.
pub mod Base
pub mod Batch
pub mod Ble
pub mod Board
pub mod Commands
pub mod Conformance
pub mod Control
pub mod Firmware
pub mod Hci
pub mod Link
pub mod LinkApi
pub mod LogBackend
pub mod Radio154
pub mod RingBuf
pub mod Startup
pub mod Stats
pub mod Tests
pub mod Wire
