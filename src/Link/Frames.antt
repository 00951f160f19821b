-- ===== src/Link/Frames.antt =====
-- Frames on the wire, from the fields that `drain` reads, and what `drain` makes of the bytes at
-- the front of its buffer when they begin a frame.
use nrf54l15_sniffer.Base.{
  ℕ, ◌+◌, ◌≤◌, ◌<◌, ◌≡◌, refl, sym, ap, ◌∙◌, false, Bytes, length, take, get_or, ◌∷◌, ◌++◌, le16,
  ltb, lt→ltb, if◌then◌else◌, arith, get_or-append, take-append, length-append,
}
use native.Mathlib.Decide.{dec_lt}
use nrf54l15_sniffer.Wire.{Wire, IsWire}
use nrf54l15_sniffer.Link.{wait, take_frame, next, get_le16}

-- The parts of a frame that are free: its type, the bytes that `drain` does not read, its payload.
pub record Frame : Type 0 where
  pub kind : ℕ
  pub spare : ℕ
  pub seq_low : ℕ
  pub seq_high : ℕ
  pub payload : Bytes

module _ (wire : Wire) where
  -- The bytes that the header CRC covers.
  abbrev pub covered : Frame → Bytes
  covered f = le16 wire.magic ++ f.kind ∷ f.spare ∷ f.seq_low ∷ f.seq_high ∷ le16 (length f.payload)

  abbrev pub frame_bytes : Frame → Bytes
  frame_bytes f = covered f ++ le16 (wire.crc16 (covered f)) ++ f.payload

  -- The header of `f` can be read at the front of `p`.
  pub record Reads (p : Bytes) (f : Frame) : Type 0 where
    pub magic_is : get_le16 p 0 ≡ wire.magic
    pub crc_is : get_le16 p 8 ≡ wire.crc16 (take 8 p)
    pub len_is : get_le16 p 6 ≡ length f.payload
    pub kind_is : get_or p 2 0 ≡ f.kind

  pub length-frame_bytes : (f : Frame) → length (frame_bytes f) ≡ 10 + length f.payload
  length-frame_bytes f = omega arith

module _ {wire : Wire} (w : IsWire wire) (f : Frame)
    (short : length f.payload ≤ wire.max_payload) where
  frame-Reads : (rest : Bytes) → Reads wire (frame_bytes wire f ++ rest) f
  frame-Reads rest = record {
    magic_is = omega (arith, w.magic_word);
    crc_is = omega (arith, w.crc_word (covered wire f));
    len_is = omega (arith, short, w.length_word);
    kind_is = refl;
  }

  -- A prefix that holds the whole header reads the same.
  prefix-Reads :
      (p r rest : Bytes) → p ++ r ≡ frame_bytes wire f ++ rest → 10 ≤ length p → Reads wire p f
  prefix-Reads p r rest e h = record {
    magic_is = omega (arith, whole.magic_is, byte 0 (omega arith), byte 1 (omega arith));
    crc_is = rw first (omega (arith, whole.crc_is, byte 8 (omega arith), byte 9 (omega arith)));
    len_is = omega (arith, whole.len_is, byte 6 (omega arith), byte 7 (omega arith));
    kind_is = byte 2 (omega arith) ∙ whole.kind_is;
  }
    where
      whole : Reads wire (frame_bytes wire f ++ rest) f
      whole = frame-Reads rest

      byte : (i : ℕ) → i < 10 → get_or p i 0 ≡ get_or (frame_bytes wire f ++ rest) i 0
      byte i lt = sym (get_or-append p r i 0 (omega arith)) ∙ ap (λ bs. get_or bs i 0) e

      first : take 8 p ≡ take 8 (frame_bytes wire f ++ rest)
      first = sym (take-append 8 p r (omega arith)) ∙ ap (λ bs. take 8 bs) e

  next-Reads :
      (p : Bytes)
      → Reads wire p f
      → next wire p
        ≡ (if ltb (length p) (10 + length f.payload) then wait else take_frame (length f.payload))
  unfolding next
  next-Reads p r = ground (arith, w.header_is, short)

  -- `drain` takes a whole frame at the front of its buffer, whatever stands behind it.
  pub next-frame_bytes :
      (rest : Bytes) → next wire (frame_bytes wire f ++ rest) ≡ take_frame (length f.payload)
  next-frame_bytes rest =
      next-Reads (frame_bytes wire f ++ rest) (frame-Reads rest)
      ∙ rw (whole (frame_bytes wire f ++ rest) (length-append (frame_bytes wire f) rest))
    where
      whole :
          (p : Bytes)
          → length p ≡ length (frame_bytes wire f) + length rest
          → ltb (length p) (10 + length f.payload) ≡ false
      whole p e = ground (arith, length-frame_bytes wire f)

  -- `drain` waits at a frame that has not arrived whole, however little of it is there.
  pub next-prefix :
      (p r rest : Bytes)
      → p ++ r ≡ frame_bytes wire f ++ rest
      → length p < length (frame_bytes wire f)
      → next wire p ≡ wait
  next-prefix p r rest e part = elim (dec_lt (length p) 10) [
    | yes few ↦ unfold next in rw (lt→ltb (length p) wire.header_len (omega (arith, w.header_is)))
    | no many ↦
        next-Reads p (prefix-Reads p r rest e (omega arith))
        ∙ rw (lt→ltb (length p) (10 + length f.payload) (omega (arith, length-frame_bytes wire f)))
  ]
