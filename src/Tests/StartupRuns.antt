-- ===== src/Tests/StartupRuns.antt =====
-- Start-up by src/main.c, and the log back end.
use nrf54l15_sniffer.Base.{
  ℕ, ◌≡◌, ◌⊎◌, refl, true, false, Bool, Bytes, List, [], ◌∷◌, ◌++◌, arith, success, failure, eio,
  is_ok, none,
}
use nrf54l15_sniffer.LinkApi.{LinkApi, recording}
use nrf54l15_sniffer.Link.{link_api}
use nrf54l15_sniffer.Link.Uart
use nrf54l15_sniffer.Radio154
use nrf54l15_sniffer.Radio154.Driver.{RadioDriver}
use nrf54l15_sniffer.Radio154.Init.{Mode, RadioSetup, IsRadioSetup}
use nrf54l15_sniffer.Batch
use nrf54l15_sniffer.Ble
use nrf54l15_sniffer.Board.{Env}
use nrf54l15_sniffer.Startup.{
  Bring, System, main, Untouched, Alive, Dead, linked, brought, main_lem,
}
use nrf54l15_sniffer.LogBackend.{
  LogOutput, IsLogOutput, LogEvent, message, dropped_messages, panicked, process_all, each, logged,
  all_pieces, AllShort, process_all_lem,
}
use nrf54l15_sniffer.Tests.Instances.{demo_wire, demo_buf, demo_outbound, demo_env}
use nrf54l15_sniffer.Tests.UartRuns.{demo_uart, empty_handed}

-- A radio with its mode, which starts as a receiver of its own frames that acknowledges them.
pub record ModedRadio : Type 0 where
  pub channel : ℕ
  pub on : Bool
  pub mode : Mode

abbrev pub moded_driver : RadioDriver
moded_driver = record {
  State = ModedRadio;
  set_channel = λ c d. (success, record d { channel = c });
  start = λ d. (success, record d { on = true });
  stop = λ d. (success, record d { on = false });
  ed_scan = λ ms d. (success, d);
  ed_wait = λ ms d. (none, d);
}

abbrev pub moded_setup : RadioSetup moded_driver
moded_setup = record {
  ready = true;
  has_api = true;
  auto_ack_set = λ on d. record d { mode = record d.mode { acknowledges = on } };
  configure_promiscuous = λ on d. (success, record d { mode = record d.mode { promiscuous = on } });
  configure_events = λ d. (success, record d { mode = record d.mode { reports = true } });
}

abbrev pub moded_IsRadioSetup : IsRadioSetup moded_setup
moded_IsRadioSetup = record {
  mode = λ d. d.mode;
  ack_sets = λ on d. refl;
  promiscuous_sets = λ on d e. refl;
  events_set = λ d e. refl;
  tune_keeps = λ c d. refl;
  start_keeps = λ d. refl;
  stop_keeps = λ d. refl;
  scan_keeps = λ ms d. refl;
  wait_keeps = λ ms d. refl;
}

abbrev pub moded_env : Env
moded_env = record demo_env { driver = moded_driver }

-- The Bluetooth controller does not come up.
abbrev pub demo_bring : Bring moded_env
demo_bring = record {
  ring = demo_buf;
  uart = demo_uart;
  setup = moded_setup;
  enable_raw = λ n. (failure eio, n);
}

abbrev pub at_power_on : System moded_env demo_bring
at_power_on = record {
  board = record {
    selected_radio = 0;
    ble_interval_ms = 0;
    ble_window_ms = 0;
    ble_phys = 1;
    radio = Radio154.initial;
    batch = Batch.initial;
    ble = Ble.initial;
    link = demo_outbound;
    driver = record {
      channel = 0;
      on = false;
      mode = record { acknowledges = true; promiscuous = false; reports = false };
    };
    controller = 0;
    antenna = 1;
  };
  callbacks = Uart.initial demo_buf;
  uart = empty_handed;
  forwarding = false;
  handling = false;
  reporting = false;
}

main_lem_example :
    let y = (main moded_env demo_bring at_power_on).1 in
    Untouched at_power_on y
    × (((is_ok (linked at_power_on) ≡ true)
          × (is_ok (brought at_power_on) ≡ true)
          × Alive at_power_on y)
        ⊎ (((is_ok (linked at_power_on) ≡ false) ⊎ (is_ok (brought at_power_on) ≡ false))
            × Dead at_power_on y))
main_lem_example = main_lem at_power_on

-- A formatter of messages that are short texts.
abbrev text_of : LogEvent ℕ → List Bytes
text_of (message n) = (73 ∷ 32 ∷ []) ∷ (n ∷ 10 ∷ []) ∷ []
text_of (dropped_messages n) = (45 ∷ n ∷ []) ∷ []
text_of panicked = []

abbrev demo_output : LogOutput
demo_output = record { Msg = ℕ; flags = 0; format = λ f evt flags s. each f (text_of evt) s }

text_of_short : (evt : LogEvent ℕ) → AllShort (text_of evt)
text_of_short (message n) = (omega arith, (omega arith, _))
text_of_short (dropped_messages n) = (omega arith, _)
text_of_short panicked = _

abbrev demo_IsLogOutput : IsLogOutput demo_output
demo_IsLogOutput = record { pieces = text_of; short = text_of_short; formats = λ S f evt s h. refl }

abbrev demo_link : LinkApi
demo_link = link_api demo_wire demo_buf

abbrev log_events : List (LogEvent ℕ)
log_events = message 65 ∷ dropped_messages 51 ∷ panicked ∷ message 66 ∷ []

process_all_lem_example :
    ((process_all demo_output (recording demo_link) log_events (demo_outbound, [])).1
      ≡ [] ++ logged demo_link (all_pieces demo_IsLogOutput demo_link log_events) demo_outbound)
    × AllShort (all_pieces demo_IsLogOutput demo_link log_events)
process_all_lem_example = process_all_lem demo_IsLogOutput demo_link log_events demo_outbound []
