-- ===== src/Tests/BatchRuns.antt =====
-- Packets through the batcher of src/batch.c.
use nrf54l15_sniffer.Base.{◌≡◌, ◌⊎◌, true, [], ◌∷◌, List, arith, replicate}
use nrf54l15_sniffer.LinkApi.{LinkApi, recording}
use nrf54l15_sniffer.Link.{link_api}
use nrf54l15_sniffer.Batch.{initial}
use nrf54l15_sniffer.Batch.Account.{Account}
use nrf54l15_sniffer.Batch.Runs.{
  Op, give, flush_now, timer, given_by, run, run_accounts, run_keeps_timer,
}
use nrf54l15_sniffer.Tests.Instances.{demo_wire, demo_buf, demo_outbound}

abbrev demo_link : LinkApi
demo_link = link_api demo_wire demo_buf

-- The second packet is close behind the first, the third is earlier, the fourth too long.
abbrev calls : List Op
calls =
    give (record { channel = 15; timestamp_us = 1000; lqi = 200; rssi = 180; psdu = 1 ∷ 2 ∷ [] })
    ∷ give (record { channel = 15; timestamp_us = 1500; lqi = 201; rssi = 181; psdu = 3 ∷ [] })
    ∷ give (record { channel = 15; timestamp_us = 900; lqi = 202; rssi = 182; psdu = [] })
    ∷ flush_now
    ∷ give
        (record { channel = 16; timestamp_us = 2000; lqi = 90; rssi = 170; psdu = replicate 130 7 })
    ∷ timer
    ∷ []

run_accounts_example :
    let (s, (l', log)) = run (recording demo_link) calls initial (demo_outbound, []) in
    Account s log (given_by calls)
run_accounts_example =
    run_accounts demo_link demo_outbound calls
      (omega arith, (omega arith, (omega arith, (omega arith, _)))) _

run_keeps_timer_example :
    let s = (run demo_link calls initial demo_outbound).0 in (s.count ≡ 0) ⊎ (s.linger ≡ true)
run_keeps_timer_example = run_keeps_timer demo_link demo_outbound calls
