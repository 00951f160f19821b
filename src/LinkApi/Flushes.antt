-- ===== src/LinkApi/Flushes.antt =====
-- Stretches of the list of sent frames that hold captured packets and nothing else.
use nrf54l15_sniffer.Base.{◌≡◌, refl, sym, ap, ◌∙◌, List, [], ◌∷◌, ◌++◌, append_assoc, append-nil}
use nrf54l15_sniffer.Wire.{FrameType, packet, packet_batch, ble_batch}
use nrf54l15_sniffer.LinkApi.{Sent}

-- Frames of captured packets.
pub data IsData : FrameType → Type 0 where
  one : IsData packet
  batch_154 : IsData packet_batch
  batch_ble : IsData ble_batch

pub data OnlyData : List Sent → Type 0 where
  none_left : OnlyData []
  also : {x : Sent} {xs : List Sent} → IsData x.kind → OnlyData xs → OnlyData (x ∷ xs)

-- Between two moments, nothing but captured packets was sent.
pub record Flushes (before after : List Sent) : Type 0 where
  pub frames : List Sent
  pub data_only : OnlyData frames
  pub log_is : after ≡ before ++ frames

OnlyData-append : {xs ys : List Sent} → OnlyData xs → OnlyData ys → OnlyData (xs ++ ys)
OnlyData-append none_left q = q
OnlyData-append (also d p) q = also d (OnlyData-append p q)

pub nothing_sent : (log : List Sent) → Flushes log log
nothing_sent log = record { frames = []; data_only = none_left; log_is = sym (append-nil log) }

pub one_sent : (log : List Sent) (x : Sent) → IsData x.kind → Flushes log (log ++ x ∷ [])
one_sent log x d = record { frames = x ∷ []; data_only = also d none_left; log_is = refl }

pub Flushes-trans : {a b c : List Sent} → Flushes a b → Flushes b c → Flushes a c
Flushes-trans {a} p q = record {
  frames = p.frames ++ q.frames;
  data_only = OnlyData-append p.data_only q.data_only;
  log_is = q.log_is ∙ ap (λ xs. xs ++ q.frames) p.log_is ∙ append_assoc a p.frames q.frames;
}
