-- ===== src/Commands.antt =====
-- What the control channel takes from shared/commands.h: the commands that the board handles and the
-- statuses that it answers with, their numbers being parameters.
use nrf54l15_sniffer.Base.{ℕ, ◌<◌, ◌≡◌, ◌^◌}

-- `SN_CMD_…`
pub data Cmd : Type 0 where
  set_radio set_ble_phys set_ble_periodic set_ble_scan set_channel : Cmd
  start stop get_info set_antenna energy_detect : Cmd

-- `SN_STATUS_…`
pub data Status : Type 0 where
  ok bad_value failed unknown_command : Status

pub record Commands : Type 0 where
  pub cmd_code : Cmd → ℕ
  pub status_code : Status → ℕ

-- Different commands have different numbers, of one byte.
pub record IsCommands (c : Commands) : Type 0 where
  pub byte : (x : Cmd) → c.cmd_code x < 2 ^ 8
  pub distinct : (x y : Cmd) → c.cmd_code x ≡ c.cmd_code y → x ≡ y
