-- ===== src/Link/Send.antt =====
-- `sn_link_send`, call by call: what it returns, what it leaves in the ring, what it counts.
use nrf54l15_sniffer.Base.{
  ◌+◌, ◌≤◌, ◌<◌, ◌≡◌, refl, ap, ◌∙◌, true, false, Bytes, length, ◌++◌, u16, u32, ltb, lt→ltb, ◌==◌,
  inl, inr, ◌⊎◌, arith, success, failure, einval, enomem, length-append, take-all,
}
use native.Mathlib.Decide.{dec_lt}
use nrf54l15_sniffer.Wire.{Wire, IsWire, FrameType}
use nrf54l15_sniffer.RingBuf.{RingBuf, IsRingBuf}
use nrf54l15_sniffer.LinkApi.{IsLinkApi}
use nrf54l15_sniffer.Link.{link_api, reset_counters, Outbound, reserve, enqueue, send}

pub seq-enqueue :
    (wire : Wire) (buf : RingBuf) (frame : Bytes) (s : Outbound buf.Ring)
    → (enqueue wire buf frame s).seq ≡ u16 (s.seq + 1)
unfolding enqueue
seq-enqueue wire buf frame s = refl

module _ {wire : Wire} {buf : RingBuf} (w : IsWire wire) (b : IsRingBuf buf) where
  -- The three things that `sn_link_send` can do.
  pub record Refused (t : FrameType) (p : Bytes) (s : Outbound buf.Ring) : Type 0 where
    pub too_long : wire.max_payload < length p
    pub result : send wire buf t p s ≡ (failure einval, s)

  pub record Dropped (t : FrameType) (p : Bytes) (s : Outbound buf.Ring) : Type 0 where
    pub fits_frame : length p ≤ wire.max_payload
    pub no_room : buf.space s.tx < wire.header_len + length p + reserve wire buf t
    pub result :
        send wire buf t p s
        ≡ (failure enomem, record s { frames_dropped = u32 (s.frames_dropped + 1) })

  pub record Queued (t : FrameType) (p : Bytes) (s : Outbound buf.Ring) : Type 0 where
    pub fits_frame : length p ≤ wire.max_payload
    pub room : wire.header_len + length p + reserve wire buf t ≤ buf.space s.tx
    pub result : send wire buf t p s ≡ (success, enqueue wire buf (wire.encode t s.seq p) s)
    pub appended :
        b.contents (enqueue wire buf (wire.encode t s.seq p) s).tx
        ≡ b.contents s.tx ++ wire.encode t s.seq p
    pub space_left :
        buf.space (enqueue wire buf (wire.encode t s.seq p) s).tx + wire.header_len + length p
        ≡ buf.space s.tx

  refused :
      (t : FrameType) (p : Bytes) (s : Outbound buf.Ring)
      → wire.max_payload < length p
      → Refused t p s
  unfolding send
  refused t p s h = record { too_long = h; result = rw empty }
    where
      empty : (length (wire.encode t s.seq p) == 0) ≡ true
      empty = ground (arith, w.refuses t s.seq p h)

  module _ (t : FrameType) (p : Bytes) (s : Outbound buf.Ring)
      (h : length p ≤ wire.max_payload) where
    some_bytes : (length (wire.encode t s.seq p) == 0) ≡ false
    some_bytes = ground (arith, w.encodes t s.seq p h, w.header_is)

    frame_length : length (wire.encode t s.seq p) ≡ wire.header_len + length p
    frame_length = w.encodes t s.seq p h

    dropped : buf.space s.tx < wire.header_len + length p + reserve wire buf t → Dropped t p s
    unfolding send
    dropped full = record { fits_frame = h; no_room = full; result = rw (some_bytes, over) }
      where
        over : ltb (buf.space s.tx) (length (wire.encode t s.seq p) + reserve wire buf t) ≡ true
        over = rw frame_length (lt→ltb _ _ full)

    queued : wire.header_len + length p + reserve wire buf t ≤ buf.space s.tx → Queued t p s
    unfolding send enqueue
    queued room = record {
      fits_frame = h;
      room = room;
      result = result;
      appended = appended;
      space_left = space_after;
    }
      where
        fits : ltb (buf.space s.tx) (length (wire.encode t s.seq p) + reserve wire buf t) ≡ false
        fits = rw frame_length (ground arith)

        result : send wire buf t p s ≡ (success, enqueue wire buf (wire.encode t s.seq p) s)
        result = rw (some_bytes, fits)

        appended :
            b.contents (buf.put (wire.encode t s.seq p) s.tx)
            ≡ b.contents s.tx ++ wire.encode t s.seq p
        appended =
            b.put_is (wire.encode t s.seq p) s.tx
            ∙ ap (λ bs. b.contents s.tx ++ bs)
                (take-all (buf.space s.tx) (wire.encode t s.seq p) (omega (arith, frame_length)))

        space_after :
            buf.space (buf.put (wire.encode t s.seq p) s.tx) + wire.header_len + length p
            ≡ buf.space s.tx
        space_after = omega (
          arith,
          ap length appended,
          frame_length,
          b.space_is s.tx,
          length-append (b.contents s.tx) (wire.encode t s.seq p),
          b.space_is (buf.put (wire.encode t s.seq p) s.tx),
        )

  -- `sn_link_send` either refuses a payload that no frame can carry and changes nothing; or finds no
  -- room for the whole frame and its reserve, and only counts the drop; or queues the whole frame
  -- behind what was queued. A frame is never queued in part.
  pub send_outcomes :
      (t : FrameType) (p : Bytes) (s : Outbound buf.Ring)
      → Refused t p s ⊎ (Dropped t p s ⊎ Queued t p s)
  send_outcomes t p s = elim (dec_lt wire.max_payload (length p)) [
    | yes long ↦ inl (refused t p s long)
    | no short ↦ elim (dec_lt (buf.space s.tx) (wire.header_len + length p + reserve wire buf t)) [
      | yes full ↦ inr (inl (dropped t p s (omega arith) full))
      | no room ↦ inr (inr (queued t p s (omega arith) (omega arith)))
    ]
  ]

-- The link of link.c keeps what its clients rely on.
pub link_api-IsLinkApi : (wire : Wire) (buf : RingBuf) → IsLinkApi (link_api wire buf)
unfolding reset_counters
link_api-IsLinkApi wire buf = record {
  frames_sent_reset = λ l. refl;
  bytes_sent_reset = λ l. refl;
  frames_dropped_reset = λ l. refl;
  high_water_reset = λ l. refl;
}
