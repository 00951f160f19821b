-- ===== src/Firmware/Standing.antt =====
-- What only a frame of the host can change: which radio is selected, whether each of them runs, and the
-- driver of the 802.15.4 one.
use nrf54l15_sniffer.Base.{
  ℕ, ◌≡◌, refl, ap, ◌∙◌, Bool, not, ◌&&◌, Bytes, length, get_or, ltb, leb, ◌==◌, if◌then◌else◌,
  arith, if_holds, Option, some, none,
}
use nrf54l15_sniffer.LinkApi.{LinkApi}
use nrf54l15_sniffer.Hci.{Hci}
use nrf54l15_sniffer.Radio154
use nrf54l15_sniffer.Radio154.{
  Radio154, NetPkt, RadioEvent, rx_failed, other_event, invalid_fcs, other_reason,
}
use nrf54l15_sniffer.Batch
use nrf54l15_sniffer.Batch.{Batch}
use nrf54l15_sniffer.Ble.{Ble}
use nrf54l15_sniffer.Ble.Batch as BleBatches
use nrf54l15_sniffer.Ble.Batch.{max_packet}
use nrf54l15_sniffer.Ble.Forward.{forward, receive, h4_event, h4_iso}
use nrf54l15_sniffer.Ble.Command.{note_command_result}
use nrf54l15_sniffer.Ble.Unbatched.{
  Core, core-noticed, core-sync_work_fn, core-big_work_fn, core-iso_path_work_fn,
}
use nrf54l15_sniffer.Board.{Env, Board, send}
use nrf54l15_sniffer.Stats.{stats_tick}
use nrf54l15_sniffer.Firmware.{
  Happening, host_frame, heard, radio_event, batch_timer, hci_packet, ble_timer, sync_work,
  big_work, iso_path_work, second, happen,
}

-- Whether a scan runs and whether the controller came up.
abbrev standing : Ble → Bool × Bool
standing b = (b.running, b.ready)

abbrev of_core : Core → Bool × Bool
of_core k = (k.1, k.2)

standing-forward :
    (h : Hci) (link : LinkApi) (ts now : ℕ) (buf : Bytes) (type : ℕ) (b : Ble) (l : link.State)
    → standing (forward h link ts now buf type b l).0 ≡ standing b
unfolding forward
standing-forward h link ts now buf type b l = ap of_core (core-noticed h link now buf type b)

standing-receive :
    (h : Hci) (link : LinkApi) (ts now h4 : ℕ) (buf : Bytes) (b : Ble) (l : link.State)
    → standing (receive h link ts now h4 buf b l).0 ≡ standing b
unfolding receive
standing-receive h link ts now h4 buf b l =
    if_holds same (answered.running && h4 == h.h4_iso)
      (standing-forward h link ts now buf h4_iso answered l ∙ before)
      (if_holds same is_event (standing-forward h link ts now buf h4_event answered l ∙ before)
        before)
  where
    same : Ble × link.State → Type 0
    same r = standing r.0 ≡ standing b

    answered : Ble
    answered =
        if h4 == h.h4_evt && leb 2 (length buf)
        then record b { pending = note_command_result h buf b.pending }
        else b

    is_event : Bool
    is_event =
        answered.running
        && h4 == h.h4_evt
        && ltb 0 (length buf)
        && not (get_or buf 0 0 == h.cmd_complete)
        && not (get_or buf 0 0 == h.cmd_status)

    before : standing answered ≡ standing b
    before =
        if_holds (λ (x : Ble). standing x ≡ standing b) (h4 == h.h4_evt && leb 2 (length buf)) refl
          refl

-- The same radio selected and running, on the same channel, with the driver where it was.
pub record Stands (e : Env) (b b' : Board e) : Type 0 where
  pub selected : b'.selected_radio ≡ b.selected_radio
  pub running : b'.radio.running ≡ b.radio.running
  pub channel : b'.radio.current_channel ≡ b.radio.current_channel
  pub driver : b'.driver ≡ b.driver
  pub scan : standing b'.ble ≡ standing b.ble

radio_kept :
    (link : LinkApi) (pkt : Option NetPkt) (r : Radio154) (s : Batch) (l : link.State)
    → let r' = (Radio154.net_recv_data link pkt r s l).2 in
      (r'.running ≡ r.running) × (r'.current_channel ≡ r.current_channel)
unfolding Radio154.net_recv_data
radio_kept link none r s l = (refl, refl)
radio_kept link (some pkt) r s l = (ground arith, ground arith)

event_kept :
    (evt : RadioEvent) (r : Radio154)
    → let r' = Radio154.radio_event evt r in
      (r'.running ≡ r.running) × (r'.current_channel ≡ r.current_channel)
unfolding Radio154.radio_event
event_kept (rx_failed (some invalid_fcs)) r = (ground arith, ground arith)
event_kept (rx_failed (some other_reason)) r = (refl, refl)
event_kept (rx_failed none) r = (refl, refl)
event_kept other_event r = (refl, refl)

-- A happening that is no frame of the host.
abbrev pub Unasked : Happening → Type 0
Unasked (host_frame kind payload) = ⊥
Unasked _ = Unit {0}

module _ (e : Env) where
  pub happen-Stands : (x : Happening) (b : Board e) → Unasked x → Stands e b (happen e x b)
  unfolding happen stats_tick send BleBatches.flush Batch.linger_expired
  happen-Stands (host_frame kind payload) b u = absurd u
  happen-Stands (heard pkt) b u =
      let (running, channel) = radio_kept e.link pkt b.radio b.batch b.link in
      record { selected = refl; running = running; channel = channel; driver = refl; scan = refl }
  happen-Stands (radio_event evt) b u =
      let (running, channel) = event_kept evt b.radio in
      record { selected = refl; running = running; channel = channel; driver = refl; scan = refl }
  happen-Stands batch_timer b u = record {
    selected = refl;
    running = refl;
    channel = refl;
    driver = refl;
    scan = refl;
  }
  happen-Stands (hci_packet ts now h4 buf) b u = record {
    selected = refl;
    running = refl;
    channel = refl;
    driver = refl;
    scan = standing-receive e.hci e.link ts now h4 buf b.ble b.link;
  }
  happen-Stands ble_timer b u = record {
    selected = refl;
    running = refl;
    channel = refl;
    driver = refl;
    scan = refl;
  }
  happen-Stands sync_work b u = record {
    selected = refl;
    running = refl;
    channel = refl;
    driver = refl;
    scan = ap of_core (core-sync_work_fn e.hci e.controller b.ble b.controller);
  }
  happen-Stands (big_work now) b u = record {
    selected = refl;
    running = refl;
    channel = refl;
    driver = refl;
    scan = ap of_core (core-big_work_fn e.hci e.controller now b.ble b.controller);
  }
  happen-Stands iso_path_work b u = record {
    selected = refl;
    running = refl;
    channel = refl;
    driver = refl;
    scan = ap of_core (core-iso_path_work_fn e.hci e.controller b.ble b.controller);
  }
  happen-Stands second b u = record {
    selected = refl;
    running = refl;
    channel = refl;
    driver = refl;
    scan = refl;
  }
