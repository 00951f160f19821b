-- ===== src/Ble/Packets.antt =====
-- The account of src/radio_ble.c's packets is kept by its forwarding thread.
use nrf54l15_sniffer.Base.{
  ℕ, ◌+◌, ◌≡◌, ◌&&◌, Bytes, length, ltb, leb, u16, ◌==◌, if◌then◌else◌, arith, if_holds,
}
use nrf54l15_sniffer.LinkApi.{LinkApi}
use nrf54l15_sniffer.Hci.{Hci}
use nrf54l15_sniffer.Ble.{Ble}
use nrf54l15_sniffer.Ble.Batch.{max_packet}
use nrf54l15_sniffer.Ble.Command.{note_command_result}
use nrf54l15_sniffer.Ble.Events.{
  note_big_established, note_subevent, note_counts, note_biginfo, note_periodic,
}
use nrf54l15_sniffer.Ble.Forward.{forward, receive, notice, count_oversized, h4_event, h4_iso}
use nrf54l15_sniffer.Ble.Books.{Balanced, add-Balanced}

pub record BalancedIn (b : Ble) : Type 0 where
  pub books : Balanced b.batch b.counters

-- The batch and the counts of packets are the same.
pub record Keeps (b b' : Ble) : Type 0 where
  pub captured : b'.counters.captured ≡ b.counters.captured
  pub forwarded : b'.counters.forwarded ≡ b.counters.forwarded
  pub dropped : b'.counters.dropped ≡ b.counters.dropped
  pub count : b'.batch.count ≡ b.batch.count
  pub linger : b'.batch.linger ≡ b.batch.linger

pub Keeps-Balanced : {b b' : Ble} → Keeps b b' → BalancedIn b → BalancedIn b'
Keeps-Balanced k h = record {
  books = record {
    held = omega (arith, k.count, h.books.held);
    timed = rw (k.count, k.linger) h.books.timed;
    balance = omega (arith, k.captured, k.forwarded, k.dropped, k.count, h.books.balance);
  };
}

-- The fields that do not matter may change.
pub BalancedIn-same : {b' : Ble} → Balanced b'.batch b'.counters → BalancedIn b'
BalancedIn-same k = record { books = k }

module _ (h : Hci) where
  note_counts-Keeps : (now : ℕ) (evt : Bytes) (b : Ble) → Keeps b (note_counts h now evt b)
  unfolding note_counts note_subevent note_big_established
  note_counts-Keeps now evt b = record {
    captured = ground arith;
    forwarded = ground arith;
    dropped = ground arith;
    count = ground arith;
    linger = ground arith;
  }

  note_periodic-Keeps : (hci : Bytes) (b : Ble) → Keeps b (note_periodic hci b)
  unfolding note_periodic
  note_periodic-Keeps hci b = record {
    captured = ground arith;
    forwarded = ground arith;
    dropped = ground arith;
    count = ground arith;
    linger = ground arith;
  }

  note_biginfo-Keeps : (now : ℕ) (hci : Bytes) (b : Ble) → Keeps b (note_biginfo h now hci b)
  unfolding note_biginfo
  note_biginfo-Keeps now hci b = record {
    captured = ground arith;
    forwarded = ground arith;
    dropped = ground arith;
    count = ground arith;
    linger = ground arith;
  }

  module _ (link : LinkApi) where
    notice-Balanced :
        (now : ℕ) (evt : Bytes) (b : Ble) → BalancedIn b → BalancedIn (notice h link now evt b)
    notice-Balanced now evt b k =
        let counted = Keeps-Balanced (note_counts-Keeps now evt b) k in
        if_holds (λ x. BalancedIn x) (note_counts h now evt b).periodic_enabled
          (Keeps-Balanced (note_biginfo-Keeps now _ _)
            (Keeps-Balanced (note_periodic-Keeps _ _) counted))
          counted

    forward-Balanced :
        (ts now : ℕ) (buf : Bytes) (type : ℕ) (b : Ble) (l : link.State)
        → BalancedIn b
        → BalancedIn (forward h link ts now buf type b l).0
    unfolding forward
    forward-Balanced ts now buf type b l k = BalancedIn-same (
        add-Balanced link ts _ _ _ _ _ l
          (if_holds (λ x. BalancedIn x) (type == h4_event) (notice-Balanced now buf _ sized)
            sized).books)
      where
        sized :
            BalancedIn
              (if ltb max_packet (u16 (length buf + 1)) then count_oversized h link b else b)
        sized =
            if_holds (λ x. BalancedIn x) (ltb max_packet (u16 (length buf + 1)))
              (BalancedIn-same
                (record { held = k.books.held; timed = k.books.timed; balance = k.books.balance }))
              k

    pub receive-Balanced :
        (ts now h4 : ℕ) (buf : Bytes) (b : Ble) (l : link.State)
        → BalancedIn b
        → BalancedIn (receive h link ts now h4 buf b l).0
    unfolding receive
    receive-Balanced ts now h4 buf b l k =
        if_holds holds _ (forward-Balanced ts now buf h4_iso _ l answered)
          (if_holds holds _ (forward-Balanced ts now buf h4_event _ l answered) answered)
      where
        holds : Ble × link.State → Type 0
        holds r = BalancedIn r.0

        answered : BalancedIn (
            if h4 == h.h4_evt && leb 2 (length buf)
            then record b { pending = note_command_result h buf b.pending }
            else b)
        answered =
            if_holds (λ x. BalancedIn x) (h4 == h.h4_evt && leb 2 (length buf))
              (BalancedIn-same k.books) k
