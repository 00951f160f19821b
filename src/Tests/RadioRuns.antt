-- ===== src/Tests/RadioRuns.antt =====
-- The 802.15.4 radio of src/radio154.c.
use nrf54l15_sniffer.Base.{
  ◌⊎◌, ◌%◌, ◌^◌, ◌*◌, ◌+◌, ◌≤◌, ◌<◌, ◌≡◌, refl, min, true, false, not, ◌&&◌, [], ◌∷◌, List, arith,
  some, none,
}
use nrf54l15_sniffer.LinkApi.{LinkApi}
use nrf54l15_sniffer.Link.{link_api}
use nrf54l15_sniffer.Batch
use nrf54l15_sniffer.Batch.Account.{Account, initial-Account}
use nrf54l15_sniffer.LinkApi.{recording}
use nrf54l15_sniffer.Batch.{Batch}
use nrf54l15_sniffer.Radio154.{Radio154, NetPkt, net_recv_data, rx_failed, invalid_fcs, window_ms}
use nrf54l15_sniffer.Radio154.Agree.{tune, listen, halt, make_calls, calls_agree, Agrees}
use nrf54l15_sniffer.Radio154.Measure.{window_ms_bounds}
use nrf54l15_sniffer.Radio154.Receive.{
  heard_on, listening, net_recv_data_lem, Delivery, arrived, event, deliver, deliver-idle,
}
use nrf54l15_sniffer.Tests.Instances.{
  demo_wire, demo_buf, demo_outbound, demo_driver, demo_IsRadioDriver, DemoRadio,
}

abbrev demo_link : LinkApi
demo_link = link_api demo_wire demo_buf

abbrev capturing : Radio154
capturing = record {
  current_channel = 20;
  captured = 3;
  fcs_failed = 1;
  running = true;
  measuring = false;
}

abbrev measuring : Radio154
measuring = record capturing { measuring = true }

abbrev receiver : DemoRadio
receiver = record { channel = 20; on = true }

calls_agree_example :
    let (r', d') =
      make_calls demo_driver (tune 25 ∷ halt ∷ tune 9 ∷ listen ∷ listen ∷ []) capturing receiver in
    Agrees demo_IsRadioDriver r' d'
calls_agree_example =
    calls_agree demo_IsRadioDriver (tune 25 ∷ halt ∷ tune 9 ∷ listen ∷ listen ∷ []) capturing
      receiver (record { channel = refl; receives = refl })

window_ms_bounds_example :
    let ms = window_ms demo_driver 8001 in
    (ms ≤ 65535) × (min (8001 * 16) (65535 * 1000) ≤ ms * 1000) × (ms * 1000 < 8001 * 16 + 1000)
window_ms_bounds_example = window_ms_bounds demo_driver 8001 (omega arith)

abbrev pkt : NetPkt
pkt = record {
  is_empty = false;
  memory = 0x41 ∷ 0x88 ∷ 7 ∷ [];
  frags_len = 3;
  second = 12;
  nanosecond = 345_678;
  lqi = 180;
  rssi_dbm = 200;
}

net_recv_data_lem_example :
    let (code, released, r', b', (l', log')) =
      net_recv_data (recording demo_link) (some pkt) capturing Batch.initial (demo_outbound, []) in
    (released ≡ 1)
    × (((not pkt.is_empty && listening capturing) ≡ true)
          × (r' ≡ record capturing { captured = (capturing.captured + 1) % 2 ^ 32 })
          × Account b' log' (heard_on capturing.current_channel pkt ∷ [])
        ⊎ ((not pkt.is_empty && listening capturing) ≡ false)
          × (r' ≡ capturing)
          × (b' ≡ Batch.initial)
          × (l' ≡ demo_outbound)
          × (log' ≡ []))
net_recv_data_lem_example =
    net_recv_data_lem demo_link pkt capturing Batch.initial demo_outbound initial-Account

abbrev deliveries : List Delivery
deliveries = arrived (some pkt) ∷ event (rx_failed (some invalid_fcs)) ∷ arrived none ∷ []

deliver-idle_example :
    deliver demo_link deliveries measuring Batch.initial demo_outbound
    ≡ (measuring, Batch.initial, demo_outbound)
deliver-idle_example = deliver-idle demo_link deliveries measuring Batch.initial demo_outbound refl
