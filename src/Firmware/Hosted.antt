-- ===== src/Firmware/Hosted.antt =====
-- From the bytes of the host on the UART to the replies: src/link.c and src/control.c together.
use nrf54l15_sniffer.Base.{◌≡◌, ◌≢◌, refl, ap, ◌∙◌, List, [], ◌∷◌, ◌++◌, some}
use nrf54l15_sniffer.Wire.{Wire, IsWire, control_cmd, ble_filter, ble_keys}
use nrf54l15_sniffer.RingBuf.{RingBuf, IsRingBuf}
use nrf54l15_sniffer.LinkApi.Carried.{carried}
use nrf54l15_sniffer.Link.Frames.{Frame}
use nrf54l15_sniffer.Link.Reader.{stream, Sendable, handle_all}
use nrf54l15_sniffer.Link.Chunks.{Small}
use nrf54l15_sniffer.Link.Uart.{initial}
use nrf54l15_sniffer.Link.Uart.Receive.{Input, arrived, receive, Fit, receive_frames}
use nrf54l15_sniffer.Board.{Env, Board, recorded}
use nrf54l15_sniffer.Control.{handle}
use nrf54l15_sniffer.Firmware.{Happening, host_frame, happen, run}
use nrf54l15_sniffer.Firmware.Answers.{answers, commands, run-answers}

-- Frames as they happen to the board, one after the other.
abbrev pub from_host : List Frame → List Happening
from_host [] = []
from_host (f ∷ fs) = host_frame f.kind f.payload ∷ from_host fs

handle_all-run :
    (e : Env) (fs : List Frame) (b : Board e)
    → handle_all (some (handle e)) fs b ≡ run e (from_host fs) b
unfolding run happen
handle_all-run e [] b = refl
handle_all-run e (f ∷ fs) b = handle_all-run e fs (handle e f.kind f.payload b)

module _ (e : Env) (not_filter : e.type_code control_cmd ≢ e.type_code ble_filter)
    (not_keys : e.type_code control_cmd ≢ e.type_code ble_keys) {buf : RingBuf} (r : IsRingBuf buf)
    {wire : Wire} (w : IsWire wire) where
  -- With `sn_control_handle` as the frame handler: however the UART cuts the host's bytes and whenever
  -- the reader runs, if the ring had room for what arrived and the reader has emptied it, then for every
  -- command of five bytes or more in the host's stream of frames of at most 448 bytes one reply, which
  -- names it, has been handed to the link, in the order of the commands. The link may still refuse it.
  pub receive-answers :
      (ins : List Input) (fs : List Frame) (b : Board (recorded e))
      → Fit buf ins (initial buf)
      → arrived ins ≡ stream wire fs
      → Sendable wire fs
      → Small fs
      → (let handler = some (handle (recorded e)) in
          r.contents (receive buf wire handler ins (initial buf) [] b).0.rx ≡ [])
      → let b' = (receive buf wire (some (handle (recorded e))) ins (initial buf) [] b).2 in
        carried answers b'.link.1 ≡ carried answers b.link.1 ++ commands e (from_host fs)
  receive-answers ins fs b k s h small empty =
      ap (λ x. carried answers x.link.1)
        ((receive_frames r w (some (handle (recorded e))) ins fs b k s h small empty).1
          ∙ handle_all-run (recorded e) fs b)
      ∙ run-answers e not_filter not_keys (from_host fs) b
