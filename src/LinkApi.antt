-- ===== src/LinkApi.antt =====
-- link.h as its clients see it: `sn_link_send` and the counters over the state of the link. The
-- batchers, the control channel, the statistics and the log take it as a parameter; Link.antt
-- implements it.
pub mod Carried
pub mod Flushes
use nrf54l15_sniffer.Base.{ℕ, ◌≡◌, Bytes, Code, Bool, is_ok, List, [], ◌∷◌, ◌++◌}
use nrf54l15_sniffer.Wire.{FrameType}

pub record LinkApi : Type 1 where
  pub State : Type 0
  pub send : FrameType → Bytes → State → Code × State
  pub reset_counters : State → State
  pub frames_sent : State → ℕ
  pub bytes_sent : State → ℕ
  pub frames_dropped : State → ℕ
  pub queued : State → ℕ
  pub high_water : State → ℕ
  pub capacity : ℕ

-- What GET_INFO relies on: no count and no peak survives a reset.
pub record IsLinkApi (link : LinkApi) : Type 0 where
  pub frames_sent_reset : (l : link.State) → link.frames_sent (link.reset_counters l) ≡ 0
  pub bytes_sent_reset : (l : link.State) → link.bytes_sent (link.reset_counters l) ≡ 0
  pub frames_dropped_reset : (l : link.State) → link.frames_dropped (link.reset_counters l) ≡ 0
  pub high_water_reset : (l : link.State) → link.high_water (link.reset_counters l) ≡ 0

-- One call of `sn_link_send`, and whether the link took the frame.
pub record Sent : Type 0 where
  pub kind : FrameType
  pub payload : Bytes
  pub accepted : Bool

-- The same link, with the calls made of it written down beside its state.
abbrev pub recording : LinkApi → LinkApi
recording link = record {
  State = link.State × List Sent;
  send = λ t p s.
      let (c, l) = link.send t p s.0 in
      (c, (l, s.1 ++ record { kind = t; payload = p; accepted = is_ok c } ∷ []));
  reset_counters = λ s. (link.reset_counters s.0, s.1);
  frames_sent = λ s. link.frames_sent s.0;
  bytes_sent = λ s. link.bytes_sent s.0;
  frames_dropped = λ s. link.frames_dropped s.0;
  queued = λ s. link.queued s.0;
  high_water = λ s. link.high_water s.0;
  capacity = link.capacity;
}
