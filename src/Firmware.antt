-- ===== src/Firmware.antt =====
-- The firmware at work: the frames of the host, what both radios hear, the timers and the work items,
-- in any order, on the one state that they share.
pub mod Standing
pub mod Always
pub mod Answers
pub mod Hosted
use nrf54l15_sniffer.Base.{ℕ, Bytes, List, [], ◌∷◌, Option}
use nrf54l15_sniffer.Radio154
use nrf54l15_sniffer.Radio154.{NetPkt, RadioEvent}
use nrf54l15_sniffer.Batch
use nrf54l15_sniffer.Ble.Batch as BleBatches
use nrf54l15_sniffer.Ble.Forward
use nrf54l15_sniffer.Ble.Work
use nrf54l15_sniffer.Board.{Env, Board}
use nrf54l15_sniffer.Control.{handle}
use nrf54l15_sniffer.Stats.{stats_tick}

-- `heard` is a packet of the 802.15.4 driver, `radio_event` another report of it. Times of the
-- Bluetooth happenings are in microseconds and milliseconds of uptime.
pub data Happening : Type 0 where
  host_frame : ℕ → Bytes → Happening
  heard : Option NetPkt → Happening
  radio_event : RadioEvent → Happening
  batch_timer : Happening
  hci_packet : ℕ → ℕ → ℕ → Bytes → Happening
  ble_timer : Happening
  sync_work : Happening
  big_work : ℕ → Happening
  iso_path_work : Happening
  second : Happening

module _ (e : Env) where
  unfoldable pub happen : Happening → Board e → Board e
  happen (host_frame kind payload) b = handle e kind payload b
  happen (heard pkt) b =
      let (code, released, radio, batch, link) =
        Radio154.net_recv_data e.link pkt b.radio b.batch b.link in
      record b { radio = radio; batch = batch; link = link }
  happen (radio_event evt) b = record b { radio = Radio154.radio_event evt b.radio }
  happen batch_timer b =
      let (batch, link) = Batch.linger_expired e.link b.batch b.link in
      record b { batch = batch; link = link }
  happen (hci_packet ts now h4 buf) b =
      let (ble, link) = Forward.receive e.hci e.link ts now h4 buf b.ble b.link in
      record b { ble = ble; link = link }
  happen ble_timer b =
      let (ble, link) = BleBatches.flush e.link b.ble b.link in record b { ble = ble; link = link }
  happen sync_work b =
      let (ble, controller) = Work.sync_work_fn e.hci e.controller b.ble b.controller in
      record b { ble = ble; controller = controller }
  happen (big_work now) b =
      let (ble, controller) = Work.big_work_fn e.hci e.controller now b.ble b.controller in
      record b { ble = ble; controller = controller }
  happen iso_path_work b =
      let (ble, controller) = Work.iso_path_work_fn e.hci e.controller b.ble b.controller in
      record b { ble = ble; controller = controller }
  happen second b = stats_tick e b

  unfoldable pub run : List Happening → Board e → Board e
  run [] b = b
  run (x ∷ xs) b = run xs (happen x b)
