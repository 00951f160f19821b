-- ===== src/Board.antt =====
-- The whole board as the control channel sees it: the state of every module, what they stand on, and
-- the calls that src/control.c makes of them.
use nrf54l15_sniffer.Base.{ℕ, Bool, Bytes, Code}
use nrf54l15_sniffer.Wire.{FrameType}
use nrf54l15_sniffer.LinkApi.{LinkApi, recording}
use nrf54l15_sniffer.Commands.{Commands}
use nrf54l15_sniffer.Hci.{Hci, Controller}
use nrf54l15_sniffer.Radio154.Driver.{RadioDriver}
use nrf54l15_sniffer.Radio154
use nrf54l15_sniffer.Radio154.{Radio154}
use nrf54l15_sniffer.Batch
use nrf54l15_sniffer.Batch.{Batch}
use nrf54l15_sniffer.Ble.{Ble}
use nrf54l15_sniffer.Ble.Setup

-- Zephyr's regulator driver, behind which the antenna switch is.
pub record Regulator : Type 1 where
  pub State : Type 0
  pub ready : Bool
  pub is_enabled : State → Bool
  pub enable : State → Code × State
  pub disable : State → Code × State

-- Everything below and beside the firmware.
pub record Env : Type 1 where
  pub link : LinkApi
  pub driver : RadioDriver
  pub hci : Hci
  pub controller : Controller
  pub regulator : Regulator
  pub commands : Commands
  pub type_code : FrameType → ℕ

-- The same environment with the frames given to the link written down.
abbrev pub recorded : Env → Env
recorded e = record e { link = recording e.link }

-- The static variables of control.c, and the states of the modules that it calls.
pub record Board (e : Env) : Type 0 where
  pub selected_radio : ℕ
  pub ble_interval_ms : ℕ
  pub ble_window_ms : ℕ
  pub ble_phys : ℕ
  pub radio : Radio154
  pub batch : Batch
  pub ble : Ble
  pub link : e.link.State
  pub driver : e.driver.State
  pub controller : e.controller.State
  pub antenna : e.regulator.State

module _ (e : Env) where
  unfoldable pub send : FrameType → Bytes → Board e → Board e
  send t payload b = record b { link = (e.link.send t payload b.link).1 }

  unfoldable pub flush_batch : Board e → Board e
  flush_batch b =
      let (batch, link) = Batch.flush e.link b.batch b.link in
      record b { batch = batch; link = link }

  unfoldable pub radio_set_channel : ℕ → Board e → Code × Board e
  radio_set_channel channel b =
      let (code, radio, driver) = Radio154.set_channel e.driver channel b.radio b.driver in
      (code, record b { radio = radio; driver = driver })

  unfoldable pub radio_start : Board e → Code × Board e
  radio_start b =
      let (code, radio, driver) = Radio154.start e.driver b.radio b.driver in
      (code, record b { radio = radio; driver = driver })

  unfoldable pub radio_stop : Board e → Code × Board e
  radio_stop b =
      let (code, radio, driver) = Radio154.stop e.driver b.radio b.driver in
      (code, record b { radio = radio; driver = driver })

  unfoldable pub radio_energy_detect : ℕ → ℕ → Board e → Code × ℕ × Board e
  radio_energy_detect channel symbols b =
      let (code, dbm, radio, driver) =
        Radio154.energy_detect e.driver channel symbols 0 b.radio b.driver in
      (code, dbm, record b { radio = radio; driver = driver })

  unfoldable pub ble_start : Board e → Code × Board e
  ble_start b =
      let (code, ble, controller) =
        Setup.start e.hci e.controller b.ble_interval_ms b.ble_window_ms b.ble_phys b.ble
          b.controller in
      (code, record b { ble = ble; controller = controller })

  unfoldable pub ble_stop : Board e → Code × Board e
  ble_stop b =
      let (code, ble, controller, link) =
        Setup.stop e.hci e.controller e.link b.ble b.controller b.link in
      (code, record b { ble = ble; controller = controller; link = link })
