-- ===== src/Tests/ConformanceRuns.antt =====
-- The vectors of the test build of src/main.c, as the decoders of this library read them.
use nrf54l15_sniffer.Base.{◌≡◌, refl, [], ◌∷◌, ◌*◌, some, length}
use nrf54l15_sniffer.Wire.{packet_batch}
use nrf54l15_sniffer.Batch.Format.{decode}
use nrf54l15_sniffer.Stats.{read_words}
use nrf54l15_sniffer.Conformance.{all_bytes, hello, newline_bytes, batch_three, link_status_bytes}

-- Three packets on channel 25, at 1000000 us and 0, 450 and 2550 us behind the one before.
batch_three_reads :
    decode packet_batch batch_three
    ≡ some (
        record { channel = 25; timestamp_us = 1_000_000; lqi = 200; rssi = 196; psdu = hello }
        ∷ record {
          channel = 25;
          timestamp_us = 1_000_450;
          lqi = 199;
          rssi = 195;
          psdu = newline_bytes;
        }
        ∷ record {
          channel = 25;
          timestamp_us = 1_003_000;
          lqi = 0;
          rssi = 158;
          psdu = 2 ∷ 0 ∷ 0x1e ∷ 0 ∷ 0xf2 ∷ [];
        }
        ∷ [])
unfolding decode
batch_three_reads = refl

-- 48000 bytes waiting, 128 KB at most so far, of 192 KB.
link_status_reads : read_words 3 link_status_bytes ≡ 48000 ∷ 128 * 1024 ∷ 192 * 1024 ∷ []
link_status_reads = refl

length-all_bytes : length all_bytes ≡ 256
length-all_bytes = refl
