-- ===== src/Stats.antt =====
-- src/main.c: the statistics that go to the host once a second.
use nrf54l15_sniffer.Base.{
  ℕ, zero, suc, ◌^◌, ◌<◌, ◌≡◌, refl, ap₂, Bytes, length, take, drop, replicate, List, [], ◌∷◌, ◌++◌,
  le_bytes, of_le, of_le-le_bytes, append_assoc,
}
use nrf54l15_sniffer.Wire.{stats, link_status}
use nrf54l15_sniffer.LinkApi.{Sent}
use nrf54l15_sniffer.Ble.{Ble}
use nrf54l15_sniffer.Board.{Env, Board, send, recorded}

-- `sn_radio_ble_get_stats`: `struct sn_ble_stats`, in order
abbrev pub get_stats : Ble → List ℕ
get_stats b =
    let k = b.counters in
    k.captured ∷ k.adv_reports ∷ k.forwarded ∷ k.oversized ∷ 0 ∷ k.dropped ∷ k.command_timeouts
    ∷ k.periodic_seen ∷ k.periodic_synced ∷ k.periodic_reports ∷ k.periodic_refused ∷ []

-- 32-bit members, one behind the other.
abbrev pub words_bytes : List ℕ → Bytes
words_bytes [] = []
words_bytes (w ∷ ws) = le_bytes 4 w ++ words_bytes ws

module _ (e : Env) where
  -- `struct sn_stats_full`, in order
  abbrev pub stats_words : Board e → List ℕ
  stats_words b =
      e.link.frames_sent b.link
      ∷ e.link.frames_dropped b.link
      ∷ 0
      ∷ 0
      ∷ e.link.bytes_sent b.link
      ∷ b.radio.captured
      ∷ 0
      ∷ b.batch.dropped
      ∷ (replicate 13 0 ++ (get_stats b.ble ++ b.radio.fcs_failed ∷ []))

  -- `struct sn_link_status`, in order
  abbrev pub status_words : Board e → List ℕ
  status_words b = e.link.queued b.link ∷ e.link.high_water b.link ∷ e.link.capacity ∷ []

  -- `stats_tick`, but for the scheduling of the next one
  unfoldable pub stats_tick : Board e → Board e
  stats_tick b =
      let sent = send e stats (words_bytes (stats_words b)) b in
      send e link_status (words_bytes (status_words sent)) sent

-- How the host reads a block of counters, by position.
abbrev pub read_words : ℕ → Bytes → List ℕ
read_words zero bs = []
read_words (suc n) bs = of_le (take 4 bs) ∷ read_words n (drop 4 bs)

abbrev pub AllWords : List ℕ → Type 0
AllWords [] = Unit {0}
AllWords (w ∷ ws) = (w < 2 ^ 32) × AllWords ws

read_words-words_bytes : (ws : List ℕ) → AllWords ws → read_words (length ws) (words_bytes ws) ≡ ws
read_words-words_bytes [] h = refl
read_words-words_bytes (w ∷ ws) h = ap₂ ◌∷◌ (of_le-le_bytes 4 w h.0) (read_words-words_bytes ws h.1)

module _ (e : Env) where
  -- What the host takes the 33 words of STATS for, by position: seven of the link and of 802.15.4, the
  -- packets that its batcher dropped, thirteen of Wi-Fi, eleven of Bluetooth, the bad checksums.
  abbrev pub host_stats : Board e → List ℕ
  host_stats b =
      let k = b.ble.counters in
      e.link.frames_sent b.link
      ∷ e.link.frames_dropped b.link
      ∷ 0
      ∷ 0
      ∷ e.link.bytes_sent b.link
      ∷ b.radio.captured
      ∷ 0
      ∷ b.batch.dropped
      ∷ 0
      ∷ 0
      ∷ 0
      ∷ 0
      ∷ 0
      ∷ 0
      ∷ 0
      ∷ 0
      ∷ 0
      ∷ 0
      ∷ 0
      ∷ 0
      ∷ 0
      ∷ k.captured
      ∷ k.adv_reports
      ∷ k.forwarded
      ∷ k.oversized
      ∷ 0
      ∷ k.dropped
      ∷ k.command_timeouts
      ∷ k.periodic_seen
      ∷ k.periodic_synced
      ∷ k.periodic_reports
      ∷ k.periodic_refused
      ∷ b.radio.fcs_failed
      ∷ []

  -- The three words of LINK.
  abbrev pub host_link : e.link.State → List ℕ
  host_link l = e.link.queued l ∷ e.link.high_water l ∷ e.link.capacity ∷ []

module _ (e : Env) where
  -- Two frames were sent, and the host reads these words from each, which has no others. `between` is
  -- the link after the first.
  pub record Reported (b b' : Board (recorded e)) : Type 0 where
    pub first : Sent
    pub second : Sent
    pub between : e.link.State
    pub log_is : b'.link.1 ≡ b.link.1 ++ first ∷ second ∷ []
    pub first_kind : first.kind ≡ stats
    pub second_kind : second.kind ≡ link_status
    pub between_is : between ≡ (e.link.send stats first.payload b.link.0).1
    pub first_reads : read_words 33 first.payload ≡ host_stats (recorded e) b
    pub first_length : length first.payload ≡ 132
    pub second_reads : read_words 3 second.payload ≡ host_link e between
    pub second_length : length second.payload ≡ 12

  -- A tick sends one STATS and one LINK frame, in this order. The host reads by position, from STATS
  -- every counter as it was just before, with zeros for the thirteen of Wi-Fi and the four that the
  -- board does not count, and from LINK the ring as STATS left it; every count is taken to fit its 32
  -- bits.
  pub stats_tick_lem :
      (b : Board (recorded e))
      → AllWords (host_stats (recorded e) b)
      → ((p : Bytes) → AllWords (host_link e (e.link.send stats p b.link.0).1))
      → Reported b (stats_tick (recorded e) b)
  unfolding stats_tick send
  stats_tick_lem b h k = record {
    first = _;
    second = _;
    between = _;
    log_is = append_assoc b.link.1 (_ ∷ []) (_ ∷ []);
    first_kind = refl;
    second_kind = refl;
    between_is = refl;
    first_reads = read_words-words_bytes (host_stats (recorded e) b) h;
    first_length = refl;
    second_reads = read_words-words_bytes (host_link e _) (k _);
    second_length = refl;
  }
