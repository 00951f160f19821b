-- ===== src/Link/Reader.antt =====
-- `reader` and `drain`: what the host sends reaches the handler frame by frame, however the bytes
-- are cut into chunks.
use nrf54l15_sniffer.Base.{
  ℕ, zero, suc, ◌+◌, ◌≤◌, ◌<◌, ◌≡◌, refl, ap, ◌∙◌, Bytes, length, drop, List, [], ◌∷◌, ◌++◌, arith,
  lt→ltb, length-drop, front-of-front, Option, none, some, take-length,
}
use native.Mathlib.Decide.{dec_lt}
use nrf54l15_sniffer.Wire.{Wire, IsWire}
use nrf54l15_sniffer.Link.{wait, take_frame, next, dispatch, drain_loop}
use nrf54l15_sniffer.Link.Frames.{Frame, frame_bytes, next-frame_bytes, next-prefix}

-- Frames one behind the other.
abbrev pub stream : Wire → List Frame → Bytes
stream wire [] = []
stream wire (f ∷ fs) = frame_bytes wire f ++ stream wire fs

-- No payload is longer than a frame may carry.
abbrev pub Sendable : Wire → List Frame → Type 0
Sendable wire [] = Unit {0}
Sendable wire (f ∷ fs) = (length f.payload ≤ wire.max_payload) × Sendable wire fs

-- The bytes kept are less than the frame that they begin.
abbrev pub Partial : Wire → Bytes → List Frame → Type 0
Partial wire p [] = p ≡ []
Partial wire p (f ∷ fs) = length p < length (frame_bytes wire f)

module _ {ℓ} {S : Type ℓ} (handler : Option (ℕ → Bytes → S → S)) where
  -- What the handler makes of a list of frames.
  abbrev pub handle_all : List Frame → S → S
  handle_all [] s = s
  handle_all (f ∷ fs) s =
      handle_all fs (elim handler [ none ↦ s | some handle ↦ handle f.kind f.payload s ])

  pub handle_all-append :
      (fs gs : List Frame) (s : S) → handle_all (fs ++ gs) s ≡ handle_all gs (handle_all fs s)
  handle_all-append [] gs s = refl
  handle_all-append (f ∷ fs) gs s = handle_all-append fs gs _

  -- `out` is what is left of a stream of `fs` that ends in the bytes `later`, and the state after.
  pub record Consumed (wire : Wire) (later : Bytes) (fs : List Frame) (s : S) (out : Bytes × S)
      : Type ℓ where
    pub finished : List Frame
    pub left : List Frame
    pub splits : fs ≡ finished ++ left
    pub remains : out.0 ++ later ≡ stream wire left
    pub handled : out.1 ≡ handle_all finished s
    pub part : Partial wire out.0 left
    pub sendable : Sendable wire left

  module _ {wire : Wire} (w : IsWire wire) where
    pub stays :
        (p later : Bytes) (fs : List Frame) (s : S)
        → p ++ later ≡ stream wire fs
        → Sendable wire fs
        → Partial wire p fs
        → Consumed wire later fs s (p, s)
    stays p later fs s e k h = record {
      finished = [];
      left = fs;
      splits = refl;
      remains = e;
      handled = refl;
      part = h;
      sendable = k;
    }

    one_more :
        (f : Frame) {later : Bytes} {fs : List Frame} {s : S} {out : Bytes × S}
        → Consumed wire later fs (handle_all (f ∷ []) s) out
        → Consumed wire later (f ∷ fs) s out
    one_more f c = record {
      finished = f ∷ c.finished;
      left = c.left;
      splits = ap (◌∷◌ f) c.splits;
      remains = c.remains;
      handled = c.handled;
      part = c.part;
      sendable = c.sendable;
    }

    dispatch-frame_bytes :
        (f : Frame) (p rest : Bytes) (s : S)
        → p ≡ frame_bytes wire f ++ rest
        → dispatch wire handler p (length f.payload) s ≡ handle_all (f ∷ []) s
    dispatch-frame_bytes f p rest s e =
        rw (e, w.header_is) (ap (λ bs. handle_all_with f.kind bs) (take-length f.payload rest))
      where
        handle_all_with : ℕ → Bytes → S
        handle_all_with kind payload = elim handler [
          | none ↦ s
          | some handle ↦ handle kind payload s
        ]

    append-eq-nil : (xs ys : Bytes) → xs ++ ys ≡ [] → xs ≡ []
    append-eq-nil [] ys e = refl
    append-eq-nil (x ∷ xs) ys e = cc

    drain_loop-nil : (fuel : ℕ) (s : S) → drain_loop wire handler fuel [] s ≡ ([], s)
    unfolding drain_loop
    drain_loop-nil zero s = refl
    drain_loop-nil (suc fuel) s = rw (at_end, drain_loop)
      where
        at_end : next wire [] ≡ wait
        at_end = unfold next in rw (lt→ltb 0 wire.header_len (omega (arith, w.header_is)))

    pub drain_loop-Consumed :
        (fuel : ℕ) (p later : Bytes) (fs : List Frame) (s : S)
        → length p ≤ fuel
        → p ++ later ≡ stream wire fs
        → Sendable wire fs
        → Consumed wire later fs s (drain_loop wire handler fuel p s)
    unfolding drain_loop
    drain_loop-Consumed fuel p later [] s h e k =
        let none_left : p ≡ [] = append-eq-nil p later e in
        rw (none_left, drain_loop-nil fuel s) (stays [] later [] s (rw none_left at e) k refl)
    drain_loop-Consumed zero p later (f ∷ fs) s h e k = stays p later (f ∷ fs) s e k (omega arith)
    drain_loop-Consumed (suc fuel) p later (f ∷ fs) s h e k =
        elim (dec_lt (length p) (length (frame_bytes wire f))) [
          | yes part ↦
              rw (next-prefix w f k.0 p later (stream wire fs) e part, drain_loop)
                (stays p later (f ∷ fs) s e k part)
          | no whole ↦
              let behind = drop (length (frame_bytes wire f)) p in
              let (cut, rest) =
                front-of-front p later (frame_bytes wire f) (stream wire fs) e (omega arith) in
              let taken : next wire p ≡ take_frame (length f.payload) =
                ap (λ bs. next wire bs) cut ∙ next-frame_bytes w f k.0 behind in
              let amount : wire.header_len + length f.payload ≡ length (frame_bytes wire f) =
                omega (arith, w.header_is) in
              let less : length behind ≤ fuel =
                omega (arith, length-drop (length (frame_bytes wire f)) p) in
              rw (taken, drain_loop, dispatch-frame_bytes f p behind s cut, amount)
                (one_more f
                  (drain_loop-Consumed fuel behind later fs (handle_all (f ∷ []) s) less rest k.1))
        ]
