-- ===== src/Ble/Slots.antt =====
-- The fixed stores of src/radio_ble.c: what is counted and queued fits the controller and the arrays.
use nrf54l15_sniffer.Base.{
  ℕ, zero, suc, ◌+◌, ◌≤◌, ◌≡◌, refl, ap, ◌&&◌, Bytes, length, get_or, drop, [], ◌∷◌, ltb, leb, u16,
  ◌==◌, if◌then◌else◌, min, arith, if_holds, length-append,
}
use nrf54l15_sniffer.LinkApi.{LinkApi}
use nrf54l15_sniffer.Hci.{Hci}
use nrf54l15_sniffer.Ble.{Ble, max_syncs, sync_q_len}
use nrf54l15_sniffer.Ble.Command.{note_command_result}
use nrf54l15_sniffer.Ble.Events.{
  handles, indices, create_sync_params, sync_req, note_big_established, note_subevent, note_counts,
  note_biginfo, note_periodic,
}
use nrf54l15_sniffer.Ble.Forward.{forward, receive, notice, count_oversized, h4_event, h4_iso}
use nrf54l15_sniffer.Ble.Batch.{max_packet}

-- One periodic sync, four requests, and as many streams as the controller holds.
pub record Slots (h : Hci) (b : Ble) : Type 0 where
  pub syncs : b.sync_count ≤ max_syncs
  pub queue : length b.sync_q ≤ sync_q_len
  pub streams : length b.bis_handles ≤ h.max_bis
  pub request : length b.big_params ≤ 25 + h.max_bis

length-handles : (n : ℕ) (at : Bytes) → length (handles n at) ≤ n
unfolding handles
length-handles zero at = omega arith
length-handles (suc n) at = ground (arith, length-handles n (drop 2 at))

length-indices : (n i : ℕ) → length (indices n i) ≡ n
length-indices zero i = refl
length-indices (suc n) i = ap suc (length-indices n (i + 1))

module _ (h : Hci) where
  note_counts-Slots :
      (now : ℕ) (evt : Bytes) (b : Ble) → Slots h b → Slots h (note_counts h now evt b)
  unfolding note_counts note_subevent note_big_established
  note_counts-Slots now evt b k =
      let few = length-handles (min (get_or (drop 16 evt) 0 0) h.max_bis) (drop 1 (drop 16 evt)) in
      record {
        syncs = ground (arith, k.syncs);
        queue = ground (arith, k.queue);
        streams = ground (arith, k.streams, few);
        request = ground (arith, k.request);
      }

  length-create_sync_params : (hci : Bytes) → length (create_sync_params h hci) ≤ 25 + h.max_bis
  length-create_sync_params hci = omega (arith, length-indices (min (get_or hci 6 0) h.max_bis) 1)

  note_periodic-Slots : (hci : Bytes) (b : Ble) → Slots h b → Slots h (note_periodic hci b)
  unfolding note_periodic
  note_periodic-Slots hci b k = record {
    syncs = ground (arith, k.syncs);
    queue = ground (arith, k.queue, length-append b.sync_q (sync_req hci ∷ []));
    streams = ground (arith, k.streams);
    request = ground (arith, k.request);
  }

  note_biginfo-Slots :
      (now : ℕ) (hci : Bytes) (b : Ble) → Slots h b → Slots h (note_biginfo h now hci b)
  unfolding note_biginfo
  note_biginfo-Slots now hci b k = record {
    syncs = ground (arith, k.syncs);
    queue = ground (arith, k.queue);
    streams = ground (arith, k.streams);
    request = ground (arith, k.request, length-create_sync_params hci);
  }

  -- The fields that do not matter may change.
  pub other_fields :
      {b b' : Ble}
      → b'.sync_count ≡ b.sync_count
      → b'.sync_q ≡ b.sync_q
      → b'.bis_handles ≡ b.bis_handles
      → b'.big_params ≡ b.big_params
      → Slots h b
      → Slots h b'
  other_fields c q s r k = record {
    syncs = omega (arith, c, k.syncs);
    queue = rw q k.queue;
    streams = rw s k.streams;
    request = rw r k.request;
  }

  notice-Slots :
      (link : LinkApi) (now : ℕ) (evt : Bytes) (b : Ble)
      → Slots h b
      → Slots h (notice h link now evt b)
  notice-Slots link now evt b k =
      let counted = note_counts-Slots now evt b k in
      if_holds (λ x. Slots h x) (note_counts h now evt b).periodic_enabled
        (note_biginfo-Slots now _ _ (note_periodic-Slots _ _ counted)) counted

  forward-Slots :
      (link : LinkApi) (ts now : ℕ) (buf : Bytes) (type : ℕ) (b : Ble) (l : link.State)
      → Slots h b
      → Slots h (forward h link ts now buf type b l).0
  unfolding forward
  forward-Slots link ts now buf type b l k =
      other_fields refl refl refl refl
        (if_holds (λ x. Slots h x) (type == h4_event) (notice-Slots link now buf _ sized) sized)
    where
      sized :
          Slots h (if ltb max_packet (u16 (length buf + 1)) then count_oversized h link b else b)
      sized =
          if_holds (λ x. Slots h x) (ltb max_packet (u16 (length buf + 1)))
            (other_fields refl refl refl refl k) k

  pub receive-Slots :
      (link : LinkApi) (ts now h4 : ℕ) (buf : Bytes) (b : Ble) (l : link.State)
      → Slots h b
      → Slots h (receive h link ts now h4 buf b l).0
  unfolding receive
  receive-Slots link ts now h4 buf b l k =
      if_holds holds _ (forward-Slots link ts now buf h4_iso _ l answered)
        (if_holds holds _ (forward-Slots link ts now buf h4_event _ l answered) answered)
    where
      holds : Ble × link.State → Type 0
      holds r = Slots h r.0

      answered : Slots h (
          if h4 == h.h4_evt && leb 2 (length buf)
          then record b { pending = note_command_result h buf b.pending }
          else b)
      answered =
          if_holds (λ x. Slots h x) (h4 == h.h4_evt && leb 2 (length buf))
            (other_fields refl refl refl refl k) k
