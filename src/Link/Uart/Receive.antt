-- ===== src/Link/Uart/Receive.antt =====
-- src/link.c, the whole way in: bytes that the UART reports, the ring between callback and reader, and
-- the frames that the handler gets.
use nrf54l15_sniffer.Base.{
  ℕ, ◌≤◌, ◌≡◌, refl, sym, ap, ap₂, ◌∙◌, Bytes, length, take, drop, List, [], ◌∷◌, ◌++◌, arith,
  append_assoc, append-nil, take-all, take-append-drop, length-take, Option,
}
use nrf54l15_sniffer.Wire.{Wire, IsWire}
use nrf54l15_sniffer.RingBuf.{RingBuf, IsRingBuf}
use nrf54l15_sniffer.Link.{reader_turn, chunk_size}
use nrf54l15_sniffer.Link.Frames.{Frame}
use nrf54l15_sniffer.Link.Reader.{stream, Sendable, handle_all}
use nrf54l15_sniffer.Link.Chunks.{Small, ChunksFit, joined, feed, feed_frames}
use nrf54l15_sniffer.Link.Uart.{UartEvent, Callbacks, uart_cb, initial}

-- What happens on the way in, in any order: the UART reports bytes, as UART_RX_RDY does, or `reader`
-- takes a turn.
pub data Input : Type 0 where
  arrive : Bytes → ℕ → ℕ → Input
  read : Input

-- The bytes that the UART reported.
abbrev pub arrived : List Input → Bytes
arrived [] = []
arrived (arrive bs offset len ∷ ins) = take len (drop offset bs) ++ arrived ins
arrived (read ∷ ins) = arrived ins

module _ {ℓ} {S : Type ℓ} (buf : RingBuf) (wire : Wire) (handler : Option (ℕ → Bytes → S → S)) where
  -- The callback's state, `rx_buf` and the handler's state through all of it. A turn of `reader` is
  -- `ring_buf_get` for 64 bytes and what it does with them.
  unfoldable pub receive :
      List Input → Callbacks buf.Ring → Bytes → S → Callbacks buf.Ring × Bytes × S
  receive [] c p s = (c, p, s)
  receive (arrive bs offset len ∷ ins) c p s =
      receive ins (uart_cb buf (UartEvent.rx_rdy bs offset len) c) p s
  receive (read ∷ ins) c p s =
      let (chunk, rx) = buf.get chunk_size c.rx in
      let (p', s') = reader_turn wire handler chunk p s in receive ins (record c { rx = rx }) p' s'

module _ (buf : RingBuf) where
  -- The ring had room for the bytes whenever some arrived.
  abbrev pub Fit : List Input → Callbacks buf.Ring → Type 0
  Fit [] c = Unit {0}
  Fit (arrive bs offset len ∷ ins) c =
      (length (take len (drop offset bs)) ≤ buf.space c.rx)
      × Fit ins (record c { rx = buf.put (take len (drop offset bs)) c.rx })
  Fit (read ∷ ins) c = Fit ins (record c { rx = (buf.get chunk_size c.rx).1 })

module _ {ℓ} {S : Type ℓ} {buf : RingBuf} (b : IsRingBuf buf) (wire : Wire)
    (handler : Option (ℕ → Bytes → S → S)) where
  -- The reader gets the bytes in the order in which they came, in chunks of at most 64.
  pub record InOrder (before : Bytes) (ins : List Input) (p : Bytes) (s : S)
      (out : Callbacks buf.Ring × Bytes × S) : Type ℓ where
    pub chunks : List Bytes
    pub fit : ChunksFit chunks
    pub fed : (out.1, out.2) ≡ feed wire handler chunks p s
    pub bytes : joined chunks ++ b.contents out.0.rx ≡ before ++ arrived ins

  receive-InOrder :
      (ins : List Input) (c : Callbacks buf.Ring) (p : Bytes) (s : S)
      → Fit buf ins c
      → InOrder (b.contents c.rx) ins p s (receive buf wire handler ins c p s)
  unfolding receive feed uart_cb
  receive-InOrder [] c p s k = record {
    chunks = [];
    fit = tt;
    fed = refl;
    bytes = sym (append-nil (b.contents c.rx));
  }
  receive-InOrder (arrive bs offset len ∷ ins) c p s k =
      let new = take len (drop offset bs) in
      let r = receive-InOrder ins (record c { rx = buf.put new c.rx }) p s k.1 in
      record {
        chunks = r.chunks;
        fit = r.fit;
        fed = r.fed;
        bytes =
            r.bytes
            ∙ ap (λ xs. xs ++ arrived ins)
                (b.put_is new c.rx ∙ ap (λ xs. b.contents c.rx ++ xs) (take-all _ new k.0))
            ∙ append_assoc (b.contents c.rx) new (arrived ins);
      }
  receive-InOrder (read ∷ ins) c p s k =
      let chunk = (buf.get chunk_size c.rx).0 in
      let r =
        receive-InOrder ins (record c { rx = (buf.get chunk_size c.rx).1 })
          (reader_turn wire handler chunk p s).0 (reader_turn wire handler chunk p s).1 k in
      record {
        chunks = chunk ∷ r.chunks;
        fit = (
          omega
              (arith, ap length (b.got chunk_size c.rx), length-take chunk_size (b.contents c.rx)),
          r.fit,
        );
        fed = r.fed;
        bytes =
            append_assoc chunk (joined r.chunks) _
            ∙ ap (λ xs. chunk ++ xs) r.bytes
            ∙ sym (append_assoc chunk _ (arrived ins))
            ∙ ap (λ xs. xs ++ arrived ins)
                (ap₂ ◌++◌ (b.got chunk_size c.rx) (b.get_leaves chunk_size c.rx)
                  ∙ take-append-drop chunk_size (b.contents c.rx));
      }

module _ {ℓ} {S : Type ℓ} {buf : RingBuf} (b : IsRingBuf buf) {wire : Wire} (w : IsWire wire)
    (handler : Option (ℕ → Bytes → S → S)) where
  -- However the UART cuts the host's bytes and whenever the reader runs: if the ring had room for
  -- what arrived and the reader has emptied it, then a stream of frames of at most 448 bytes has
  -- reached the handler frame by frame, each once, whole and in order, and no byte is left over.
  pub receive_frames :
      (ins : List Input) (fs : List Frame) (s : S)
      → Fit buf ins (initial buf)
      → arrived ins ≡ stream wire fs
      → Sendable wire fs
      → Small fs
      → b.contents (receive buf wire handler ins (initial buf) [] s).0.rx ≡ []
      → let (c, p, s') = receive buf wire handler ins (initial buf) [] s in
        (p ≡ []) × (s' ≡ handle_all handler fs s)
  receive_frames ins fs s k e h small empty =
      let whole = r.fed ∙ feed_frames handler w r.chunks fs s r.fit (all ∙ e) h small in
      (ap (λ (x : Bytes × S). x.0) whole, ap (λ (x : Bytes × S). x.1) whole)
    where
      r :
          InOrder b wire handler
            (b.contents (initial buf).rx)
            ins
            []
            s
            (receive buf wire handler ins (initial buf) [] s)
      r = receive-InOrder b wire handler ins (initial buf) [] s k

      nothing : b.contents (initial buf).rx ≡ []
      nothing = unfold initial in b.empty_is

      all : joined r.chunks ≡ arrived ins
      all =
          sym (append-nil (joined r.chunks))
          ∙ ap (λ xs. joined r.chunks ++ xs) (sym empty)
          ∙ r.bytes
          ∙ ap (λ xs. xs ++ arrived ins) nothing
