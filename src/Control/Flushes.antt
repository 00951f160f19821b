-- ===== src/Control/Flushes.antt =====
-- What a command of src/control.c sends before its reply: captured packets, and nothing else.
use nrf54l15_sniffer.Base.{ℕ, ◌≡◌, subst, false, ◌&&◌, not, ◌==◌, Bool-cases, inl, inr, arith}
use nrf54l15_sniffer.LinkApi.Flushes.{Flushes, nothing_sent, Flushes-trans}
use nrf54l15_sniffer.Commands.{Cmd}
use nrf54l15_sniffer.Batch
use nrf54l15_sniffer.Batch.Flushes as BatchFlushes
use nrf54l15_sniffer.Ble.Batch as BleBatches
use nrf54l15_sniffer.Ble.Batch.Flushes as BleFlushes
use nrf54l15_sniffer.Ble.Setup
use nrf54l15_sniffer.Board.{
  recorded, Env, Board, flush_batch, radio_set_channel, radio_start, radio_stop,
  radio_energy_detect, ble_start, ble_stop,
}
use nrf54l15_sniffer.Control.{radio_154, radio_ble, stop_radio, set_antenna, fresh_session, execute}

module _ (e : Env) where
  flush_batch-Flushes :
      (b : Board (recorded e)) → Flushes b.link.1 (flush_batch (recorded e) b).link.1
  unfolding flush_batch Batch.flush
  flush_batch-Flushes b =
      BatchFlushes.flush_locked-Flushes e.link (record b.batch { linger = false }) b.link

  stop_radio-Flushes :
      (r : ℕ) (b : Board (recorded e)) → Flushes b.link.1 (stop_radio (recorded e) r b).1.link.1
  unfolding stop_radio ble_stop radio_stop Setup.stop BleBatches.flush
  stop_radio-Flushes r b = elim (Bool-cases (r == radio_ble)) [
    | inr other ↦ rw other (flush_batch-Flushes _)
    | inl ble ↦ rw ble (elim (Bool-cases b.ble.ready) [
      | inl up ↦
          subst (λ x. Flushes b.link.1 x) (ground arith)
            (BleFlushes.flush_locked-Flushes e.link (record b.ble.batch { linger = false })
              b.ble.counters b.link)
      | inr down ↦ subst (λ x. Flushes b.link.1 x) (ground arith) (nothing_sent b.link.1)
    ])
  ]

  set_antenna_sends :
      (value : ℕ) (b : Board (recorded e)) → b.link.1 ≡ (set_antenna (recorded e) value b).1.link.1
  unfolding set_antenna
  set_antenna_sends value b = ground arith

  get_info-Flushes :
      (b : Board (recorded e)) → Flushes b.link.1 (execute (recorded e) Cmd.get_info 0 b).2.link.1
  unfolding execute fresh_session
  get_info-Flushes b =
      let b1 = (stop_radio (recorded e) radio_154 b).1 in
      let b2 = (stop_radio (recorded e) radio_ble b1).1 in
      subst (λ x. Flushes b.link.1 x) (set_antenna_sends 0 (fresh_session (recorded e) b2))
        (Flushes-trans (stop_radio-Flushes radio_154 b) (stop_radio-Flushes radio_ble b1))

  pub execute-Flushes :
      (cmd : Cmd) (value : ℕ) (b : Board (recorded e))
      → Flushes b.link.1 (execute (recorded e) cmd value b).2.link.1
  unfolding execute radio_set_channel radio_start radio_energy_detect ble_start
  execute-Flushes Cmd.set_radio value b =
      elim (Bool-cases (not (value == radio_154) && not (value == radio_ble))) [
        | inl wrong ↦ rw wrong (nothing_sent b.link.1)
        | inr right ↦ rw right (elim (Bool-cases (value == b.selected_radio)) [
          | inl same ↦ rw same (nothing_sent b.link.1)
          | inr other ↦ rw other (stop_radio-Flushes b.selected_radio b)
        ])
      ]
  execute-Flushes Cmd.set_ble_phys value b =
      subst (λ x. Flushes b.link.1 x) (ground arith) (nothing_sent b.link.1)
  execute-Flushes Cmd.set_ble_periodic value b = nothing_sent b.link.1
  execute-Flushes Cmd.set_ble_scan value b = nothing_sent b.link.1
  execute-Flushes Cmd.set_channel value b = elim (Bool-cases (b.selected_radio == radio_ble)) [
    | inl sel ↦ rw sel (nothing_sent b.link.1)
    | inr other ↦ rw other (subst (λ x. Flushes b.link.1 x) (ground arith) (flush_batch-Flushes b))
  ]
  execute-Flushes Cmd.start value b =
      subst (λ x. Flushes b.link.1 x) (ground arith) (nothing_sent b.link.1)
  execute-Flushes Cmd.stop value b = stop_radio-Flushes b.selected_radio b
  execute-Flushes Cmd.get_info value b = get_info-Flushes b
  execute-Flushes Cmd.set_antenna value b =
      subst (λ x. Flushes b.link.1 x) (set_antenna_sends value b) (nothing_sent b.link.1)
  execute-Flushes Cmd.energy_detect value b =
      subst (λ x. Flushes b.link.1 x) (ground arith) (nothing_sent b.link.1)
