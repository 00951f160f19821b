-- ===== src/Tests/ControlRuns.antt =====
-- Commands of the host to src/control.c.
use nrf54l15_sniffer.Base.{
  if◌then◌else◌, ◌≤◌, ◌≡◌, refl, true, false, [], ◌∷◌, Bytes, arith, ◌==◌, replicate,
}
use nrf54l15_sniffer.Commands.{Cmd, ok}
use nrf54l15_sniffer.Radio154.{Radio154}
use nrf54l15_sniffer.Batch
use nrf54l15_sniffer.Ble
use nrf54l15_sniffer.Ble.{Ble}
use nrf54l15_sniffer.Board.{Env, Board, recorded}
use nrf54l15_sniffer.Control.{execute, handle}
use nrf54l15_sniffer.Control.Replies.{Answered, handle_answers}
use nrf54l15_sniffer.LinkApi.{LinkApi}
use nrf54l15_sniffer.Base.{ℕ, List, Bool, ltb, ◌&&◌, ◌+◌, ◌*◌, ◌^◌, success}
use nrf54l15_sniffer.Stats.{AllWords, host_stats, host_link, Reported, stats_tick, stats_tick_lem}
use nrf54l15_sniffer.Control.Antenna.{set_antenna_lem}
use nrf54l15_sniffer.Tests.Instances.{demo_outbound, demo_env, demo_IsRegulator}

abbrev pub idle_radio : Radio154
idle_radio = record {
  current_channel = 11;
  captured = 0;
  fcs_failed = 0;
  running = false;
  measuring = false;
}

abbrev pub scanning : Ble
scanning = record {
  running = true;
  ready = true;
  pending = record { opcode = 0; status = 0; done = false };
  filter = [];
  keys = Ble.no_keys;
  key_count = 0;
  periodic_enabled = true;
  sync_count = 1;
  sync_q = [];
  big_synced = false;
  big_retry_at = 0;
  big_pending = false;
  big_params = [];
  bis_handles = [];
  counters = Ble.zero_counters;
  batch = record {
    buf = replicate 2048 0;
    used = 9;
    count = 0;
    base_us = 0;
    last_us = 0;
    linger = false;
  };
  sync_work = false;
  big_work = false;
  iso_path_work = false;
}

-- Bluetooth is selected and scans.
abbrev pub board : Board demo_env
board = record {
  selected_radio = 2;
  ble_interval_ms = 60;
  ble_window_ms = 30;
  ble_phys = 5;
  radio = idle_radio;
  batch = Batch.initial;
  ble = scanning;
  link = demo_outbound;
  driver = record { channel = 11; on = false };
  controller = 0;
  antenna = 1;
}

abbrev pub recorded_board : Board (recorded demo_env)
recorded_board = record {
  selected_radio = 2;
  ble_interval_ms = 60;
  ble_window_ms = 30;
  ble_phys = 5;
  radio = idle_radio;
  batch = Batch.initial;
  ble = scanning;
  link = (demo_outbound, []);
  driver = record { channel = 11; on = false };
  controller = 0;
  antenna = 1;
}

-- SET_RADIO to 802.15.4
abbrev set_radio : Bytes
set_radio = 5 ∷ 0 ∷ 0 ∷ 0 ∷ 0 ∷ []

handle_answers_example :
    Answered demo_env 5 [] (handle (recorded demo_env) 16 set_radio recorded_board).link.1
handle_answers_example =
    handle_answers demo_env set_radio recorded_board (λ e. omega arith) (λ e. omega arith)
      (omega arith)

set_antenna_lem_example :
    let (status, answer, b') = execute demo_env Cmd.set_antenna 1 board in
    (b'.antenna ≤ 1) × (status ≡ ok → (1 ≤ 1) × (b'.antenna ≡ (if 1 == 0 then 1 else 0)))
set_antenna_lem_example = set_antenna_lem demo_env demo_IsRegulator 1 board (omega arith)

-- A link that takes every frame and only counts them.
abbrev counting_link : LinkApi
counting_link = record {
  State = ℕ;
  send = λ t p n. (success, n + 1);
  reset_counters = λ n. 0;
  frames_sent = λ n. n;
  bytes_sent = λ n. 100 * n;
  frames_dropped = λ n. 0;
  queued = λ n. 20 * n;
  high_water = λ n. 30 * n;
  capacity = 7680;
}

abbrev counting_env : Env
counting_env = record demo_env { link = counting_link }

abbrev counting_board : Board (recorded counting_env)
counting_board = record {
  selected_radio = 0;
  ble_interval_ms = 0;
  ble_window_ms = 0;
  ble_phys = 1;
  radio = record idle_radio { captured = 12; fcs_failed = 2 };
  batch = record Batch.initial { dropped = 1 };
  ble = scanning;
  link = (41, []);
  driver = record { channel = 11; on = true };
  controller = 0;
  antenna = 1;
}

-- Every number has 32 bits.
abbrev all_small : List ℕ → Bool
all_small [] = true
all_small (w ∷ ws) = ltb w (2 ^ 32) && all_small ws

AllWords-small : (ws : List ℕ) → all_small ws ≡ true → AllWords ws
AllWords-small [] h = _
AllWords-small (w ∷ ws) h = (ground arith, AllWords-small ws (ground arith))

stats_tick_lem_example :
    Reported counting_env counting_board (stats_tick (recorded counting_env) counting_board)
stats_tick_lem_example =
    stats_tick_lem counting_env counting_board
      (AllWords-small (host_stats (recorded counting_env) counting_board) refl)
      (λ p. AllWords-small (host_link counting_env 42) refl)
