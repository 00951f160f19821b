-- ===== src/Link/Chunks.antt =====
-- The whole way in: any cut of the host's bytes into chunks that `ring_buf_get` may make.
use nrf54l15_sniffer.Base.{
  ℕ, suc, ◌+◌, ◌-◌, ◌≤◌, ◌<◌, ◌≡◌, refl, sym, ap, subst, ◌∙◌, false, Bytes, length, List, [], ◌∷◌,
  ◌++◌, ◌==◌, arith, length-append, take-all, append_assoc, append-nil, Option,
}
use nrf54l15_sniffer.Wire.{Wire, IsWire}
use nrf54l15_sniffer.Link.{drain_loop, drain, reader_turn, rx_buf_size, chunk_size}
use nrf54l15_sniffer.Link.Frames.{Frame, frame_bytes, length-frame_bytes}
use nrf54l15_sniffer.Link.Reader.{
  stream, Sendable, Partial, handle_all, handle_all-append, Consumed, drain_loop-Consumed, stays,
}

-- Every frame leaves room for one more chunk in `rx_buf`: 448 bytes at most with its header.
abbrev pub Small : List Frame → Type 0
Small [] = Unit {0}
Small (f ∷ fs) = (length f.payload + 10 + chunk_size ≤ rx_buf_size) × Small fs

Small-append : (fs gs : List Frame) → Small (fs ++ gs) → Small gs
Small-append [] gs h = h
Small-append (f ∷ fs) gs h = Small-append fs gs h.1

abbrev pub ChunksFit : List Bytes → Type 0
ChunksFit [] = Unit {0}
ChunksFit (c ∷ cs) = (length c ≤ chunk_size) × ChunksFit cs

abbrev pub joined : List Bytes → Bytes
joined [] = []
joined (c ∷ cs) = c ++ joined cs

-- What is kept between two chunks leaves room for the next.
length-Partial :
    (wire : Wire) (p : Bytes) (fs : List Frame)
    → Small fs
    → Partial wire p fs
    → length p + chunk_size < rx_buf_size
length-Partial wire p [] k h = rw h (omega arith)
length-Partial wire p (f ∷ fs) k h = omega (arith, length-frame_bytes wire f)

module _ {ℓ} {S : Type ℓ} (wire : Wire) (handler : Option (ℕ → Bytes → S → S)) where
  -- The turns of `reader`, one for each chunk.
  unfoldable pub feed : List Bytes → Bytes → S → Bytes × S
  feed [] p s = (p, s)
  feed (c ∷ cs) p s = let (p', s') = reader_turn wire handler c p s in feed cs p' s'

module _ {ℓ} {S : Type ℓ} (handler : Option (ℕ → Bytes → S → S)) {wire : Wire}
    (w : IsWire wire) where
  drain-Consumed :
      (p later : Bytes) (fs : List Frame) (s : S)
      → p ++ later ≡ stream wire fs
      → Sendable wire fs
      → Small fs
      → Consumed handler wire later fs s (drain wire handler p s)
  unfolding drain
  drain-Consumed p later fs s e k small = rw not_full c
    where
      c : Consumed handler wire later fs s (drain_loop wire handler (length p) p s)
      c = drain_loop-Consumed handler w (length p) p later fs s (omega arith) e k

      left_small : Small c.left
      left_small = Small-append c.finished c.left (subst (λ gs. Small gs) c.splits small)

      not_full : (length (drain_loop wire handler (length p) p s).0 == rx_buf_size) ≡ false
      not_full = ground (arith, length-Partial wire _ c.left left_small c.part)

  reader_turn-Consumed :
      (chunk p later : Bytes) (fs : List Frame) (s : S)
      → length chunk ≤ chunk_size
      → p ++ (chunk ++ later) ≡ stream wire fs
      → Sendable wire fs
      → Small fs
      → Partial wire p fs
      → Consumed handler wire later fs s (reader_turn wire handler chunk p s)
  unfolding reader_turn
  reader_turn-Consumed [] p later fs s h e k small part = stays handler w p later fs s e k part
  reader_turn-Consumed (c ∷ cs) p later fs s h e k small part =
      rw (some_bytes, take-all (rx_buf_size - length p) (c ∷ cs) room)
        (drain-Consumed (p ++ c ∷ cs) later fs s (append_assoc p (c ∷ cs) later ∙ e) k small)
    where
      room : length (c ∷ cs) ≤ rx_buf_size - length p
      room = omega (arith, length-Partial wire p fs small part)

      some_bytes : (suc (length cs) == 0) ≡ false
      some_bytes = ground arith

  feed-handle_all :
      (chunks : List Bytes) (p : Bytes) (fs : List Frame) (s : S)
      → ChunksFit chunks
      → p ++ joined chunks ≡ stream wire fs
      → Sendable wire fs
      → Small fs
      → Partial wire p fs
      → feed wire handler chunks p s ≡ ([], handle_all handler fs s)
  unfolding feed
  feed-handle_all [] p [] s h e k small part = rw part
  feed-handle_all [] p (f ∷ fs) s h e k small part = absurd (
      omega (
        arith,
        ap length (sym (append-nil p) ∙ e),
        length-append (frame_bytes wire f) (stream wire fs),
      ))
  feed-handle_all (c ∷ cs) p fs s h e k small part =
      let t = reader_turn-Consumed c p (joined cs) fs s h.0 e k small part in
      feed-handle_all cs _ t.left _ h.1 t.remains t.sendable
        (Small-append t.finished t.left (subst (λ gs. Small gs) t.splits small)) t.part
      ∙ ap (λ r. ([], r))
          (ap (handle_all handler t.left) t.handled
            ∙ sym (handle_all-append handler t.finished t.left s)
            ∙ ap (λ gs. handle_all handler gs s) (sym t.splits))

  -- Whatever chunks the receive ring hands over, each of at most 64 bytes: from an empty buffer, a
  -- stream of frames of at most 448 bytes reaches the handler frame by frame, each once, whole and in
  -- order, and nothing stays in the buffer.
  pub feed_frames :
      (chunks : List Bytes) (fs : List Frame) (s : S)
      → ChunksFit chunks
      → joined chunks ≡ stream wire fs
      → Sendable wire fs
      → Small fs
      → feed wire handler chunks [] s ≡ ([], handle_all handler fs s)
  feed_frames chunks fs s h e k small = feed-handle_all chunks [] fs s h e k small (start fs)
    where
      start : (fs : List Frame) → Partial wire [] fs
      start [] = refl
      start (f ∷ fs) = omega arith
