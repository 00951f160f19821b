-- ===== src/Tests/DeliveryRuns.antt =====
-- Bluetooth packets through the batches of src/radio_ble.c.
use nrf54l15_sniffer.Base.{[], ◌∷◌, List, arith, replicate, refl, true, ◌≡◌, ◌+◌, ◌⊎◌, u32}
use nrf54l15_sniffer.LinkApi.Carried.{taken, refused}
use nrf54l15_sniffer.Ble.Batch.Delivery.{packets_of}
use nrf54l15_sniffer.Ble.Counted.{run_counts}
use nrf54l15_sniffer.LinkApi.{LinkApi, recording}
use nrf54l15_sniffer.Link.{link_api}
use nrf54l15_sniffer.Ble.{initial}
use nrf54l15_sniffer.Ble.Batch.Adding.{Account}
use nrf54l15_sniffer.Ble.Life.{Step, came_up, start_scan, packet, timer, stop_scan, run}
use nrf54l15_sniffer.Ble.Delivered.{InRange, heard_by, run_delivers}
use nrf54l15_sniffer.Tests.Instances.{demo_wire, demo_buf, demo_outbound, demo_hci, demo_controller}

abbrev demo_link : LinkApi
demo_link = link_api demo_wire demo_buf

-- Two reports close together, an answer to a command, a long isochronous packet, and a report that
-- comes when the scan has stopped.
abbrev life : List Step
life =
    came_up
    ∷ start_scan 60 30 1
    ∷ packet 1000 1 4 (0x3e ∷ 5 ∷ 0x0d ∷ 1 ∷ 2 ∷ 3 ∷ 4 ∷ [])
    ∷ packet 1450 1 4 (0x3e ∷ 3 ∷ 0x02 ∷ 8 ∷ 9 ∷ [])
    ∷ packet 1500 1 4 (0x0e ∷ 4 ∷ 1 ∷ 3 ∷ 0x0c ∷ 0 ∷ [])
    ∷ timer
    ∷ packet 90000 90 5 (replicate 310 7)
    ∷ stop_scan
    ∷ packet 95000 95 4 (0x3e ∷ 3 ∷ 0x02 ∷ 8 ∷ 9 ∷ [])
    ∷ []

life-InRange : InRange life
life-InRange = (
  omega arith,
  omega arith,
  (
    omega arith,
    omega arith,
    (omega arith, omega arith, (omega arith, omega arith, (omega arith, omega arith, _))),
  ),
)

run_delivers_example :
    let (b, s', (l', log)) =
      run demo_hci demo_controller (recording demo_link) life initial 0 (demo_outbound, []) in
    Account b.batch log
      (heard_by demo_hci demo_controller (recording demo_link) life initial 0 (demo_outbound, []))
run_delivers_example =
    run_delivers demo_hci demo_controller demo_link life 0 demo_outbound life-InRange

run_counts_example :
    let (b, s', (l', log)) =
      run demo_hci demo_controller (recording demo_link) life initial 0 (demo_outbound, []) in
    (b.counters.forwarded ≡ u32 (taken packets_of log))
    × (b.counters.dropped ≡ u32 (refused packets_of log))
    × (u32 (taken packets_of log + refused packets_of log + b.batch.count)
        ≡ u32 b.counters.captured)
    × ((b.batch.count ≡ 0) ⊎ (b.batch.linger ≡ true))
run_counts_example =
    run_counts demo_hci demo_controller demo_link life 0 demo_outbound life-InRange
      (refl, (refl, (refl, (refl, (refl, (refl, (refl, (refl, (refl, _)))))))))
