-- ===== src/Control/Session.antt =====
-- What the GET_INFO command of src/control.c leaves for the capture that it opens.
use nrf54l15_sniffer.Base.{◌≡◌, true, false, success}
use nrf54l15_sniffer.LinkApi.{LinkApi, IsLinkApi}
use nrf54l15_sniffer.Radio154
use nrf54l15_sniffer.Batch
use nrf54l15_sniffer.Batch.{Batch}
use nrf54l15_sniffer.Ble
use nrf54l15_sniffer.Ble.{Ble, zero_counters, no_keys}
use nrf54l15_sniffer.Board.{Env, Board}
use nrf54l15_sniffer.Control.{radio_154}

module _ (e : Env) (stops : (d : e.driver.State) → (e.driver.stop d).0 ≡ success)
    (laws : IsLinkApi e.link) where
  -- A board on which nothing of an earlier capture is left.
  pub record Fresh (b : Board e) : Type 0 where
    pub selected : b.selected_radio ≡ radio_154
    pub radio_off : b.radio.running ≡ false
    pub ble_off : b.ble.running ≡ false
    pub captured : b.radio.captured ≡ 0
    pub fcs_failed : b.radio.fcs_failed ≡ 0
    pub batch_empty : b.batch.count ≡ 0
    pub batch_idle : b.batch.linger ≡ false
    pub batch_dropped : b.batch.dropped ≡ 0
    pub ble_batch : b.ble.ready ≡ true → (b.ble.batch.count ≡ 0) × (b.ble.batch.linger ≡ false)
    pub ble_keys : b.ble.ready ≡ true → (b.ble.keys ≡ no_keys) × (b.ble.key_count ≡ 0)
    pub ble_counters : b.ble.counters ≡ zero_counters
    pub periodic : b.ble.periodic_enabled ≡ false
    pub phys : b.ble_phys ≡ 1
    pub interval_ms : b.ble_interval_ms ≡ 0
    pub window_ms : b.ble_window_ms ≡ 0
    pub frames_sent : e.link.frames_sent b.link ≡ 0
    pub bytes_sent : e.link.bytes_sent b.link ≡ 0
    pub frames_dropped : e.link.frames_dropped b.link ≡ 0
    pub high_water : e.link.high_water b.link ≡ 0
