-- ===== src/Radio154/Receive.antt =====
-- What `net_recv_data` and `radio_event` record, and when they record nothing.
use nrf54l15_sniffer.Base.{
  ℕ, ◌+◌, ◌≡◌, refl, ap, ◌∙◌, Bool, false, not, ◌&&◌, List, [], ◌∷◌, if◌then◌else◌, arith, Option,
  some, none, Code, u32, success, true, sym, subst, ap₂, Bytes, length, take, take-all, length-take,
  ltb, ◌++◌, ◌*◌, ◌/◌, ◌%◌, ◌^◌, Bool-cases, inl, inr, ◌⊎◌, zero, suc, ◌≤◌,
}
use nrf54l15_sniffer.LinkApi.{LinkApi, Sent, recording}
use nrf54l15_sniffer.Batch
use nrf54l15_sniffer.Batch.{Batch, Packet}
use nrf54l15_sniffer.Batch.Invariant.{clamp}
use nrf54l15_sniffer.Batch.Account.{Account, add-Account}
use nrf54l15_sniffer.Radio154.{
  Radio154, NetPkt, RadioEvent, rx_failed, other_event, invalid_fcs, other_reason, net_recv_data,
  radio_event, to_packet,
}

-- The radio is the capture's: a capture runs and no measurement has it.
abbrev pub listening : Radio154 → Bool
listening r = r.running && not r.measuring

radio_event-idle : (e : RadioEvent) (r : Radio154) → listening r ≡ false → radio_event e r ≡ r
unfolding radio_event
radio_event-idle (rx_failed (some invalid_fcs)) r h = ground arith
radio_event-idle (rx_failed (some other_reason)) r h = refl
radio_event-idle (rx_failed none) r h = refl
radio_event-idle other_event r h = refl

-- What the driver delivers, from its threads and interrupts.
pub data Delivery : Type 0 where
  arrived : Option NetPkt → Delivery
  event : RadioEvent → Delivery

module _ (link : LinkApi) where
  -- The state that a delivery leaves.
  abbrev pub state_of : Code × ℕ × Radio154 × Batch × link.State → Radio154 × Batch × link.State
  state_of (code, released, r, b, l) = (r, b, l)

  net_recv_data_kept :
      (pkt : NetPkt) (r : Radio154) (b : Batch) (l : link.State)
      → (not pkt.is_empty && listening r) ≡ true
      → net_recv_data link (some pkt) r b l ≡ (
          let (b', l') = Batch.add link (to_packet r pkt) b l in
          (success, 1, record r { captured = u32 (r.captured + 1) }, b', l'))
  unfolding net_recv_data
  net_recv_data_kept pkt r b l h = ground arith

  net_recv_data_left :
      (pkt : NetPkt) (r : Radio154) (b : Batch) (l : link.State)
      → (not pkt.is_empty && listening r) ≡ false
      → ((net_recv_data link (some pkt) r b l).1 ≡ 1)
        × (state_of (net_recv_data link (some pkt) r b l) ≡ (r, b, l))
  unfolding net_recv_data
  net_recv_data_left pkt r b l h = (ground arith, ground arith)

  unfoldable pub deliver :
      List Delivery → Radio154 → Batch → link.State → Radio154 × Batch × link.State
  deliver [] r b l = (r, b, l)
  deliver (arrived pkt ∷ ds) r b l =
      let (r', b', l') = state_of (net_recv_data link pkt r b l) in deliver ds r' b' l'
  deliver (event e ∷ ds) r b l = deliver ds (radio_event e r) b l

  net_recv_data-idle :
      (pkt : Option NetPkt) (r : Radio154) (b : Batch) (l : link.State)
      → listening r ≡ false
      → state_of (net_recv_data link pkt r b l) ≡ (r, b, l)
  unfolding net_recv_data
  net_recv_data-idle none r b l h = refl
  net_recv_data-idle (some pkt) r b l h = ground arith

  -- While the radio is stopped or tuned away to measure energy, whatever the driver delivers, in
  -- whatever number and order, changes no count and reaches neither the batch nor the host.
  pub deliver-idle :
      (ds : List Delivery) (r : Radio154) (b : Batch) (l : link.State)
      → listening r ≡ false
      → deliver ds r b l ≡ (r, b, l)
  unfolding deliver
  deliver-idle [] r b l h = refl
  deliver-idle (arrived pkt ∷ ds) r b l h =
      ap (λ (st : Radio154 × Batch × link.State). deliver ds st.0 st.1 st.2)
        (net_recv_data-idle pkt r b l h)
      ∙ deliver-idle ds r b l h
  deliver-idle (event e ∷ ds) r b l h = rw (radio_event-idle e r h) (deliver-idle ds r b l h)

-- The packet as the capture has it, read off the driver's buffer, channel and clock.
abbrev pub heard_on : ℕ → NetPkt → Packet
heard_on channel pkt = record {
  channel = channel;
  timestamp_us = (pkt.second * 1_000_000 + pkt.nanosecond / 1000) % 2 ^ 64;
  lqi = pkt.lqi;
  rssi = pkt.rssi_dbm % 256;
  psdu = take 127 (take pkt.frags_len pkt.memory);
}

take-take-le : (m n : ℕ) (bs : Bytes) → m ≤ n → take m (take n bs) ≡ take m bs
take-take-le zero n bs h = refl
take-take-le (suc m) zero bs h = absurd (omega arith)
take-take-le (suc m) (suc n) [] h = refl
take-take-le (suc m) (suc n) (x ∷ bs) h = ap (◌∷◌ x) (take-take-le m n bs (omega arith))

take-limit : (n : ℕ) (bs : Bytes) → take (if ltb 127 n then 127 else n) bs ≡ take 127 (take n bs)
take-limit n bs = elim (Bool-cases (ltb 127 n)) [
  | inl long ↦ rw long (sym (take-take-le 127 n bs (ground arith)))
  | inr fits ↦ rw fits (sym (take-all 127 (take n bs) (ground (arith, length-take n bs))))
]

clamp-to_packet :
    (r : Radio154) (pkt : NetPkt) → clamp (to_packet r pkt) ≡ heard_on r.current_channel pkt
clamp-to_packet r pkt =
    ap₂
      (λ t bs. record {
        channel = r.current_channel;
        timestamp_us = t;
        lqi = pkt.lqi;
        rssi = pkt.rssi_dbm % 256;
        psdu = bs;
      })
      (omega arith)
      (take-limit (length kept) kept
        ∙ ap (λ bs. take 127 bs) (take-all (length kept) kept (omega arith))
        ∙ ap (λ bs. take 127 bs) (take-limit pkt.frags_len pkt.memory)
        ∙ take-all 127 _ (omega (arith, length-take 127 (take pkt.frags_len pkt.memory))))
  where
    kept : Bytes
    kept = (to_packet r pkt).psdu

module _ (link : LinkApi) where
  -- A packet that the driver delivers is released exactly once. If it is not empty, and a capture runs
  -- that no measurement has interrupted, it is counted, and it is the next packet that the host reads
  -- or the batch holds: with the channel of the capture, its time in microseconds modulo 2 ^ 64, its
  -- signal, and its first 127 bytes. Otherwise nothing changes.
  pub net_recv_data_lem :
      (pkt : NetPkt) (r : Radio154) (b : Batch) (l : link.State) {log : List Sent}
      {given : List Packet}
      → Account b log given
      → let (code, released, r', b', (l', log')) =
          net_recv_data (recording link) (some pkt) r b (l, log) in
        (released ≡ 1)
        × (((not pkt.is_empty && listening r) ≡ true)
              × (r' ≡ record r { captured = (r.captured + 1) % 2 ^ 32 })
              × Account b' log' (given ++ heard_on r.current_channel pkt ∷ [])
            ⊎ ((not pkt.is_empty && listening r) ≡ false)
              × (r' ≡ r)
              × (b' ≡ b)
              × (l' ≡ l)
              × (log' ≡ log))
  net_recv_data_lem pkt r b l {log} {given} a =
      elim (Bool-cases (not pkt.is_empty && listening r)) [
        | inl on ↦ rw (net_recv_data_kept (recording link) pkt r b (l, log) on) (
          refl,
          inl (
            on,
            refl,
            subst
                (λ p.
                  let (b', (l', log')) = Batch.add (recording link) (to_packet r pkt) b (l, log) in
                  Account b' log' (given ++ p ∷ []))
                (clamp-to_packet r pkt) (add-Account link l (to_packet r pkt) (omega arith) a),
          ),
        )
        | inr off ↦
            let (once, same) = net_recv_data_left (recording link) pkt r b (l, log) off in
            (
              once,
              inr (
                off,
                ap (λ (x : Radio154 × Batch × (link.State × List Sent)). x.0) same,
                ap (λ (x : Radio154 × Batch × (link.State × List Sent)). x.1) same,
                ap (λ (x : Radio154 × Batch × (link.State × List Sent)). x.2.0) same,
                ap (λ (x : Radio154 × Batch × (link.State × List Sent)). x.2.1) same,
              ),
            )
      ]
