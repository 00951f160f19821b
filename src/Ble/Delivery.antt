-- ===== src/Ble/Delivery.antt =====
-- What of the air reaches the host through src/radio_ble.c, in any run of its steps.
use nrf54l15_sniffer.Base.{
  ℕ, ◌+◌, ◌^◌, ◌<◌, ◌≡◌, refl, sym, subst, ap, ◌∙◌, Bytes, length, take, List, [], ◌∷◌, ◌++◌, ltb,
  u16, ◌==◌, if◌then◌else◌, arith, Bool-cases, inl, inr, take-all, length-take,
}
use nrf54l15_sniffer.LinkApi.{LinkApi, Sent, recording}
use nrf54l15_sniffer.Hci.{Hci}
use nrf54l15_sniffer.Ble.{Ble}
use nrf54l15_sniffer.Ble.Batch.{max_packet}
use nrf54l15_sniffer.Ble.Batch.Format.{BlePacket}
use nrf54l15_sniffer.Ble.Batch.Invariant.{IsPacket}
use nrf54l15_sniffer.Ble.Batch.Adding.{Account, add-Account}
use nrf54l15_sniffer.Ble.Forward.{forward, notice, count_oversized, h4_event, flag_truncated}
use nrf54l15_sniffer.Ble.Unbatched.{core-noticed, batch_of_core}

-- A packet of the controller as the capture has it: its H4 byte and its bytes, 300 at most, and a flag
-- if there were more.
abbrev pub capture_of : ℕ → ℕ → Bytes → BlePacket
capture_of ts h4_type buf = record {
  timestamp_us = ts;
  orig_len = length buf + 1;
  flags = if ltb 300 (length buf + 1) then 1 else 0;
  kept = take 300 (h4_type ∷ buf);
}

take-limit :
    (n : ℕ) (bs : Bytes) → n ≡ length bs → take (if ltb 300 n then 300 else n) bs ≡ take 300 bs
take-limit n bs e = elim (Bool-cases (ltb 300 n)) [
  | inl long ↦ rw long refl
  | inr fits ↦
      rw fits (take-all n bs (omega (arith, e)) ∙ sym (take-all 300 bs (ground (arith, e))))
]

-- The packet that `forward` hands to the batch, with its lengths in 16 bits.
abbrev pub packed : ℕ → ℕ → Bytes → BlePacket
packed ts h4_type buf =
    let full = u16 (length buf + 1) in
    let truncated = ltb max_packet full in
    record {
      timestamp_us = ts;
      orig_len = full;
      flags = if truncated then flag_truncated else 0;
      kept = take (if truncated then max_packet else full) (h4_type ∷ buf);
    }

packed_lem :
    (ts h4_type : ℕ) (buf : Bytes)
    → length buf + 1 < 2 ^ 16
    → packed ts h4_type buf ≡ capture_of ts h4_type buf
packed_lem ts h4_type buf h = rw full (
    ap
      (λ bs. record {
        timestamp_us = ts;
        orig_len = length buf + 1;
        flags = if ltb 300 (length buf + 1) then 1 else 0;
        kept = bs;
      })
      (take-limit (length buf + 1) (h4_type ∷ buf) (omega arith)))
  where
    full : u16 (length buf + 1) ≡ length buf + 1
    full = omega arith

pub packed-IsPacket :
    (ts h4_type : ℕ) (buf : Bytes)
    → ts < 2 ^ 64
    → length buf + 1 < 2 ^ 16
    → IsPacket (packed ts h4_type buf)
packed-IsPacket ts h4_type buf t n =
    subst (λ q. IsPacket q) (sym (packed_lem ts h4_type buf n))
      (record {
        time_fits = t;
        orig_fits = n;
        kept_le = omega (arith, length-take 300 (h4_type ∷ buf));
      })

module _ (h : Hci) (link : LinkApi) where
  forward-packed :
      (ts now : ℕ) (buf : Bytes) (type : ℕ) (b : Ble) (l : link.State) {log : List Sent}
      {given : List BlePacket}
      → IsPacket (packed ts type buf)
      → Account b.batch log given
      → let (b', (l', log')) = forward h (recording link) ts now buf type b (l, log) in
        Account b'.batch log' (given ++ packed ts type buf ∷ [])
  unfolding forward
  forward-packed ts now buf type b l {log} {given} is a =
      add-Account link noticed.counters l (packed ts type buf) is (
        subst (λ s. Account s log given)
          (sym (batch_of_core _ _ (core-noticed h (recording link) now buf type b))) a)
    where
      sized : Ble
      sized =
          if ltb max_packet (u16 (length buf + 1)) then count_oversized h (recording link) b else b

      noticed : Ble
      noticed = if type == h4_event then notice h (recording link) now buf sized else sized

  -- `forward` puts the packet behind those before it.
  pub forward-Account :
      (ts now : ℕ) (buf : Bytes) (type : ℕ) (b : Ble) (l : link.State) {log : List Sent}
      {given : List BlePacket}
      → ts < 2 ^ 64
      → length buf + 1 < 2 ^ 16
      → Account b.batch log given
      → let (b', (l', log')) = forward h (recording link) ts now buf type b (l, log) in
        Account b'.batch log' (given ++ capture_of ts type buf ∷ [])
  forward-Account ts now buf type b l {log} {given} t n a =
      subst (λ q. Account r.0.batch r.1.1 (given ++ q ∷ [])) same
        (forward-packed ts now buf type b l (packed-IsPacket ts type buf t n) a)
    where
      r : Ble × (link.State × List Sent)
      r = forward h (recording link) ts now buf type b (l, log)

      same : packed ts type buf ≡ capture_of ts type buf
      same = packed_lem ts type buf n
