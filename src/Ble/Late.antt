-- ===== src/Ble/Late.antt =====
-- `sn_radio_ble_stop` of src/radio_ble.c while a work item waits for the controller.
use nrf54l15_sniffer.Base.{ℕ, ◌+◌, ◌≡◌, refl, Bool, true, false, arith, u8}
use nrf54l15_sniffer.LinkApi.{LinkApi}
use nrf54l15_sniffer.Hci.{Hci, Controller}
use nrf54l15_sniffer.Ble.{Ble, no_keys}
use nrf54l15_sniffer.Ble.Setup.{stop}
use nrf54l15_sniffer.Ble.Setup.Stop.{Stopped, stop_lem}
use nrf54l15_sniffer.Ble.Work.{train_followed, group_followed, group_refused}

-- The work queue has one thread, so one work item waits at most: for a train or for a group, and the
-- answer is that it is followed or not, a group's at `now` milliseconds of uptime.
pub data Waiting : Type 0 where
  nothing : Waiting
  for_train : Bool → Waiting
  for_group : ℕ → Bool → Waiting

-- What it does when the answer comes.
abbrev pub answered : Waiting → Ble → Ble
answered nothing b = b
answered (for_train true) b = train_followed b
answered (for_train false) b = b
answered (for_group now true) b = group_followed b
answered (for_group now false) b = group_refused now b

abbrev pub trains : Waiting → ℕ
trains (for_train true) = 1
trains _ = 0

abbrev pub group : Waiting → Bool
group (for_group now true) = true
group _ = false

-- Nothing of a scan is left but what the work item has counted.
pub record Left (w : Waiting) (b b' : Ble) : Type 0 where
  pub running : b'.running ≡ false
  pub keys : b'.keys ≡ no_keys
  pub key_count : b'.key_count ≡ 0
  pub count : b'.batch.count ≡ 0
  pub linger : b'.batch.linger ≡ false
  pub filter : b'.filter ≡ b.filter
  pub sync_count : b'.sync_count ≡ trains w
  pub big_synced : b'.big_synced ≡ group w

module _ (h : Hci) (c : Controller) (link : LinkApi) where
  -- Whatever state a scan is in, whatever the controller answers or fails to answer, and whichever work
  -- item waits for it meanwhile: when `sn_radio_ble_stop` is done and the work item has its answer, no
  -- scan is marked as running, no identity key is in memory, no batch is open or waiting, and the filter
  -- stays. No periodic train and no isochronous group is counted as followed, but for the one that the
  -- controller granted to the work item after the counts were cleared.
  pub stop_then_answer :
      (w : Waiting) (b : Ble) (s : c.State) (l : link.State)
      → let (code, b', s', l') = stop h c link b s l in Left w b (answered w b')
  stop_then_answer w b s l = go w
    where
      b' : Ble
      b' = (stop h c link b s l).1

      e : Stopped h c b b'
      e = stop_lem h c link b s l

      counted : u8 (b'.sync_count + 1) ≡ 1
      counted = omega (arith, e.sync_count)

      go : (w : Waiting) → Left w b (answered w b')
      go nothing = record {
        running = e.running;
        keys = e.keys;
        key_count = e.key_count;
        count = e.count;
        linger = e.linger;
        filter = e.filter;
        sync_count = e.sync_count;
        big_synced = e.big_synced;
      }
      go (for_train true) = record {
        running = e.running;
        keys = e.keys;
        key_count = e.key_count;
        count = e.count;
        linger = e.linger;
        filter = e.filter;
        sync_count = counted;
        big_synced = e.big_synced;
      }
      go (for_train false) = record {
        running = e.running;
        keys = e.keys;
        key_count = e.key_count;
        count = e.count;
        linger = e.linger;
        filter = e.filter;
        sync_count = e.sync_count;
        big_synced = e.big_synced;
      }
      go (for_group now true) = record {
        running = e.running;
        keys = e.keys;
        key_count = e.key_count;
        count = e.count;
        linger = e.linger;
        filter = e.filter;
        sync_count = e.sync_count;
        big_synced = refl;
      }
      go (for_group now false) = record {
        running = e.running;
        keys = e.keys;
        key_count = e.key_count;
        count = e.count;
        linger = e.linger;
        filter = e.filter;
        sync_count = e.sync_count;
        big_synced = e.big_synced;
      }
