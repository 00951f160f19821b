-- ===== src/LogBackend.antt =====
-- src/log_backend_sn.c: Zephyr's log output, put into LOG frames. The formatter is Zephyr's, a
-- parameter; log_output_flush hands it 192 bytes at most at a time.
use nrf54l15_sniffer.Base.{
  ℕ, ◌≤◌, ◌≡◌, refl, sym, ap, ◌∙◌, Bytes, length, List, [], ◌∷◌, ◌++◌, ◌==◌, if◌then◌else◌, Code,
  success, failure, enotsup, is_ok, append_assoc, append-nil,
}
use nrf54l15_sniffer.Wire.{log}
use nrf54l15_sniffer.LinkApi.{LinkApi, Sent, recording}

-- `SN_LOG_BUF_SIZE`
abbrev pub log_buf_size : ℕ
log_buf_size = 192

module _ (link : LinkApi) where
  -- `out`: what it returns, and the link after
  unfoldable pub out : Bytes → link.State → ℕ × link.State
  out bytes l = (length bytes, (link.send log bytes l).1)

-- `format_set`, for the number of LOG_OUTPUT_TEXT
unfoldable pub format_set : ℕ → ℕ → Code
format_set text log_type = if log_type == text then success else failure enotsup

-- What Zephyr's logging asks of a backend: a message, the messages that it dropped, a panic.
pub data LogEvent (Msg : Type 0) : Type 0 where
  message : Msg → LogEvent Msg
  dropped_messages : ℕ → LogEvent Msg
  panicked : LogEvent Msg

-- `log_output_func_t` for text with `log_backend_std_dropped` and `log_backend_std_panic`: each calls
-- the backend's `out` on one piece of text after another.
pub record LogOutput : Type 1 where
  pub Msg : Type 0
  pub flags : ℕ
  pub format : {S : Type 0} → (Bytes → S → ℕ × S) → LogEvent Msg → ℕ → S → S

-- Every piece of a list, through the same function.
abbrev pub each : {S : Type 0} → (Bytes → S → ℕ × S) → List Bytes → S → S
each f [] s = s
each f (p ∷ ps) s = each f ps (f p s).1

abbrev pub AllShort : List Bytes → Type 0
AllShort [] = Unit {0}
AllShort (p ∷ ps) = (length p ≤ log_buf_size) × AllShort ps

-- The documented behaviour: a text is handed over in pieces that fit the buffer, each once if `f` says
-- that it has taken all of it.
pub record IsLogOutput (o : LogOutput) : Type 1 where
  pub pieces : LogEvent o.Msg → List Bytes
  pub short : (evt : LogEvent o.Msg) → AllShort (pieces evt)
  pub formats :
      (S : Type 0) (f : Bytes → S → ℕ × S) (evt : LogEvent o.Msg) (s : S)
      → ((p : Bytes) (t : S) → (f p t).0 ≡ length p)
      → o.format f evt o.flags s ≡ each f (pieces evt) s

module _ (o : LogOutput) (link : LinkApi) where
  -- `process`, `dropped` and `panic`
  unfoldable pub process : LogEvent o.Msg → link.State → link.State
  process evt l = o.format (out link) evt o.flags l

  -- The backend on one event after another.
  pub process_all : List (LogEvent o.Msg) → link.State → link.State
  process_all [] l = l
  process_all (evt ∷ evts) l = process_all evts (process evt l)

-- One LOG frame for each piece, whatever the link says of the one before.
abbrev pub logged : (link : LinkApi) → List Bytes → link.State → List Sent
logged link [] l = []
logged link (p ∷ ps) l =
    record { kind = log; payload = p; accepted = is_ok (link.send log p l).0 }
    ∷ logged link ps (link.send log p l).1

module _ {o : LogOutput} (laws : IsLogOutput o) (link : LinkApi) where
  -- The pieces of some events, in order.
  abbrev pub all_pieces : List (LogEvent o.Msg) → List Bytes
  all_pieces [] = []
  all_pieces (evt ∷ evts) = laws.pieces evt ++ all_pieces evts

  each-logged :
      (ps : List Bytes) (l : link.State) (before : List Sent)
      → each (out (recording link)) ps (l, before)
        ≡ ((each (out link) ps l), before ++ logged link ps l)
  unfolding out
  each-logged [] l before = rw append-nil refl
  each-logged (p ∷ ps) l before =
      each-logged ps (link.send log p l).1 _
      ∙ ap (λ fs. (each (out link) ps (link.send log p l).1, fs))
          (append_assoc before (_ ∷ []) (logged link ps (link.send log p l).1))

  logged-append :
      (ps qs : List Bytes) (l : link.State)
      → logged link (ps ++ qs) l ≡ logged link ps l ++ logged link qs (each (out link) ps l)
  unfolding out
  logged-append [] qs l = refl
  logged-append (p ∷ ps) qs l =
      ap (◌∷◌ (record { kind = log; payload = p; accepted = is_ok (link.send log p l).0 }))
        (logged-append ps qs (link.send log p l).1)

  AllShort-append : (ps qs : List Bytes) → AllShort ps → AllShort qs → AllShort (ps ++ qs)
  AllShort-append [] qs h k = k
  AllShort-append (p ∷ ps) qs h k = (h.0, AllShort-append ps qs h.1 k)

  process-logged :
      (evt : LogEvent o.Msg) (l : link.State) (before : List Sent)
      → process o (recording link) evt (l, before)
        ≡ (each (out link) (laws.pieces evt) l, before ++ logged link (laws.pieces evt) l)
  unfolding process out
  process-logged evt l before =
      laws.formats (link.State × List Sent) (out (recording link)) evt (l, before) (λ p t. refl)
      ∙ each-logged (laws.pieces evt) l before

  -- Whatever is logged, dropped by the logging or flushed in a panic: each piece of the text becomes
  -- the payload of one LOG frame of at most 192 bytes, in order, also behind a piece that the link
  -- has refused; nothing else is sent, and no piece is sent twice.
  pub process_all_lem :
      (evts : List (LogEvent o.Msg)) (l : link.State) (before : List Sent)
      → ((process_all o (recording link) evts (l, before)).1
          ≡ before ++ logged link (all_pieces evts) l)
        × AllShort (all_pieces evts)
  unfolding process_all
  process_all_lem [] l before = (sym (append-nil before), tt)
  process_all_lem (evt ∷ evts) l before =
      let ps = laws.pieces evt in
      let l' = each (out link) ps l in
      let (rest, short) = process_all_lem evts l' (before ++ logged link ps l) in
      (
        ap (λ (t : link.State × List Sent). (process_all o (recording link) evts t).1)
              (process-logged evt l before)
            ∙ rest
            ∙ append_assoc before (logged link ps l) (logged link (all_pieces evts) l')
            ∙ ap (λ fs. before ++ fs) (sym (logged-append ps (all_pieces evts) l)),
        AllShort-append ps (all_pieces evts) (laws.short evt) short,
      )
