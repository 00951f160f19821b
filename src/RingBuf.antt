-- ===== src/RingBuf.antt =====
-- Zephyr's byte ring (zephyr/sys/ring_buffer.h), which link.c uses in both directions: the calls
-- that link.c makes, as a parameter, and their documented behaviour as a FIFO of bounded size.
use nrf54l15_sniffer.Base.{ℕ, ◌+◌, ◌≤◌, ◌<◌, ◌≡◌, ◌≢◌, Bytes, [], ◌++◌, length, take, drop}

pub record RingBuf : Type 1 where
  pub Ring : Type 0
  pub empty : Ring
  pub capacity : ℕ
  -- `ring_buf_put`, without the count that it returns
  pub put : Bytes → Ring → Ring
  -- `ring_buf_get`
  pub get : ℕ → Ring → Bytes × Ring
  -- `ring_buf_get_claim`: the next bytes that lie in one piece, at most so many
  pub claim : ℕ → Ring → Bytes × Ring
  -- `ring_buf_get_finish`
  pub finish : ℕ → Ring → Ring
  -- `ring_buf_size_get`, `ring_buf_space_get`
  pub size : Ring → ℕ
  pub space : Ring → ℕ

-- The documented behaviour, told by the bytes that the ring holds: a span that is claimed takes up its
-- room, and is among `contents`, until `finish` gives it up. `size` leaves a claimed span out, and
-- nothing relies on it.
pub record IsRingBuf (b : RingBuf) : Type 0 where
  pub contents : b.Ring → Bytes
  pub empty_is : contents b.empty ≡ []
  pub space_is : (r : b.Ring) → length (contents r) + b.space r ≡ b.capacity
  pub put_is : (bs : Bytes) (r : b.Ring) → contents (b.put bs r) ≡ contents r ++ take (b.space r) bs
  pub got : (n : ℕ) (r : b.Ring) → (b.get n r).0 ≡ take n (contents r)
  pub get_leaves : (n : ℕ) (r : b.Ring) → contents (b.get n r).1 ≡ drop n (contents r)
  pub claimed : (n : ℕ) (r : b.Ring) → (b.claim n r).0 ≡ take (length (b.claim n r).0) (contents r)
  pub claim_le : (n : ℕ) (r : b.Ring) → length (b.claim n r).0 ≤ n
  pub claim_some : (n : ℕ) (r : b.Ring) → 0 < n → contents r ≢ [] → 0 < length (b.claim n r).0
  pub claim_keeps : (n : ℕ) (r : b.Ring) → contents (b.claim n r).1 ≡ contents r
  pub finish_drops :
      (n : ℕ) (r : b.Ring) → n ≤ length (contents r) → contents (b.finish n r) ≡ drop n (contents r)
