-- ===== src/Ble/Setup/Stop.antt =====
-- What sending commands leaves alone, and what `sn_radio_ble_stop` and a start that fails leave behind.
use nrf54l15_sniffer.Base.{
  ℕ, ◌≡◌, refl, sym, ap, subst, ◌∙◌, ◌||◌, not, false, Bytes, List, [], ◌∷◌, if◌then◌else◌, Code,
  failure, enodev, is_ok, Code-cases, Bool-cases, inl, inr, arith,
}
use nrf54l15_sniffer.LinkApi.{LinkApi}
use nrf54l15_sniffer.Hci.{Opcode, reset, Hci, Controller, Reply-cases}
use nrf54l15_sniffer.Ble.{Ble, BleBatch, Pending, no_keys}
use nrf54l15_sniffer.Ble.Batch.{flush, flush_locked}
use nrf54l15_sniffer.Ble.Command.{send_command, hci_command, note_all, conclude}
use nrf54l15_sniffer.Ble.Setup.{
  configure, start, stop, units_per_ms, used_interval, used_window, scan_started,
}
use nrf54l15_sniffer.Ble.Setup.Start.{Command, send_all, scan_commands, configure-send_all}

-- Two states that differ in the command in flight and the count of time-outs alone.
abbrev pub SameScan : Ble → Ble → Type 0
SameScan b b' = b' ≡ record b {
  pending = b'.pending;
  counters = record b.counters { command_timeouts = b'.counters.command_timeouts };
}

SameScan-trans : (a b c : Ble) → SameScan a b → SameScan b c → SameScan a c
SameScan-trans a b c p q =
    q
    ∙ ap
        (λ (x : Ble). record x {
          pending = c.pending;
          counters = record x.counters { command_timeouts = c.counters.command_timeouts };
        })
        p

module _ (h : Hci) (c : Controller) where
  abbrev outcome : Pending → Ble → Ble
  outcome p b = record (conclude h c p b).1 { pending = record p { opcode = 0; done = false } }

  outcome-SameScan : (p : Pending) (b : Ble) → SameScan b (outcome p b)
  outcome-SameScan p b = elim (Bool-cases p.done) [ inl e ↦ rw e refl | inr e ↦ rw e refl ]

  abbrev sent : Opcode → Pending
  sent op = record { opcode = h.opcode op; status = 0xff; done = false }

  -- A command changes what is in flight and the count of time-outs, and nothing else.
  pub send_command-SameScan :
      (op : Opcode) (params : Bytes) (b : Ble) (s : c.State)
      → SameScan b (send_command h c op params b s).1
  unfolding send_command hci_command
  send_command-SameScan op params b s = elim (Reply-cases (c.command (h.opcode op) params s).0) [
    | inl e ↦ rw (e, hci_command) refl
    | inr (inl (n, e)) ↦ rw (e, hci_command) refl
    | inr (inr (es, e)) ↦ rw (e, hci_command) (outcome-SameScan (note_all h es (sent op)) b)
  ]

  send_all-SameScan :
      (cs : List Command) (b : Ble) (s : c.State) → SameScan b (send_all h c cs b s).1
  unfolding send_all
  send_all-SameScan [] b s = refl
  send_all-SameScan ((op, params) ∷ cs) b s = elim (Code-cases (send_command h c op params b s).0) [
    | inl ok ↦
        rw ok
          (SameScan-trans b _ _ (send_command-SameScan op params b s) (send_all-SameScan cs _ _))
    | inr (e, failed) ↦ rw failed (send_command-SameScan op params b s)
  ]

  configure-SameScan :
      (interval window phys : ℕ) (b : Ble) (s : c.State)
      → SameScan b (configure h c interval window phys b b s).1
  configure-SameScan interval window phys b s =
      subst (λ m. SameScan b (m b s).1) (sym (configure-send_all h c interval window phys b))
        (send_all-SameScan (scan_commands interval window phys b) b s)

  pub start-unready :
      (interval_ms window_ms phys : ℕ) (b : Ble) (s : c.State)
      → b.ready ≡ false
      → start h c interval_ms window_ms phys b s ≡ (failure enodev, b, s)
  unfolding start
  start-unready interval_ms window_ms phys b s e = rw (ap not e) refl

  -- `sn_radio_ble_start` is running afterwards exactly if it reports success or was running before,
  -- and a start that fails, for want of a controller or at any command, changes nothing of the state
  -- but the command in flight and the count of time-outs: the filter, the keys, the batch and what is
  -- known of periodic trains are as they were.
  pub start_lem :
      (interval_ms window_ms phys : ℕ) (b : Ble) (s : c.State)
      → let (code, b', s') = start h c interval_ms window_ms phys b s in
        (b'.running ≡ (is_ok code || b.running))
        × (b'.ready ≡ b.ready)
        × SameScan (if is_ok code then scan_started b else b) b'
  unfolding start scan_started
  start_lem interval_ms window_ms phys b s = elim (Bool-cases (not b.ready)) [
    | inl e ↦ rw e (refl, refl, refl)
    | inr e ↦ rw e (elim (Code-cases r.0) [
      | inl ok ↦ rw ok (refl, ap (λ (x : Ble). x.ready) same, ap scan_started same)
      | inr (n, failed) ↦
          rw failed (ap (λ (x : Ble). x.running) same, ap (λ (x : Ble). x.ready) same, same)
    ])
  ]
    where
      interval : ℕ
      interval = units_per_ms (used_interval interval_ms)

      window : ℕ
      window = units_per_ms (used_window interval_ms window_ms)

      r : Code × Ble × c.State
      r = configure h c interval window phys b b s

      same : SameScan b r.1
      same = configure-SameScan interval window phys b s

  pub record Stopped (b b' : Ble) : Type 0 where
    pub running : b'.running ≡ false
    pub keys : b'.keys ≡ no_keys
    pub key_count : b'.key_count ≡ 0
    pub sync_count : b'.sync_count ≡ 0
    pub big_synced : b'.big_synced ≡ false
    pub count : b'.batch.count ≡ 0
    pub linger : b'.batch.linger ≡ false
    pub ready : b'.ready ≡ b.ready
    pub filter : b'.filter ≡ b.filter
    pub sync_q : b'.sync_q ≡ b.sync_q
    pub bis_handles : b'.bis_handles ≡ b.bis_handles
    pub big_params : b'.big_params ≡ b.big_params

  flush_locked_empty :
      (link : LinkApi) (s : BleBatch) (k : _) (l : link.State)
      → let (s', k', l') = flush_locked link s k l in (s'.count ≡ 0) × (s'.linger ≡ s.linger)
  unfolding flush_locked
  flush_locked_empty link s k l = (ground arith, ground arith)

  pub stop_lem :
      (link : LinkApi) (b : Ble) (s : c.State) (l : link.State)
      → let (code, b', s', l') = stop h c link b s l in Stopped b b'
  unfolding stop flush
  stop_lem link b s l =
      let batch = (flush_locked link (record b.batch { linger = false }) b.counters l).0 in
      let e = flush_locked_empty link (record b.batch { linger = false }) b.counters l in
      let idle = record b {
        running = false;
        keys = no_keys;
        key_count = 0;
        sync_count = 0;
        big_synced = false;
        counters = (flush_locked link (record b.batch { linger = false }) b.counters l).1;
        batch = batch;
      } in
      let same = send_command-SameScan reset [] idle s in
      record {
        running = ap (λ (x : Ble). x.running) same;
        keys = ap (λ (x : Ble). x.keys) same;
        key_count = ap (λ (x : Ble). x.key_count) same;
        sync_count = ap (λ (x : Ble). x.sync_count) same;
        big_synced = ap (λ (x : Ble). x.big_synced) same;
        count = ap (λ (x : Ble). x.batch.count) same ∙ e.0;
        linger = ap (λ (x : Ble). x.batch.linger) same ∙ e.1;
        ready = ap (λ (x : Ble). x.ready) same;
        filter = ap (λ (x : Ble). x.filter) same;
        sync_q = ap (λ (x : Ble). x.sync_q) same;
        bis_handles = ap (λ (x : Ble). x.bis_handles) same;
        big_params = ap (λ (x : Ble). x.big_params) same;
      }
