-- ===== src/Ble/Setup/Start.antt =====
-- The commands that start a scan, written out as a list, and that `sn_radio_ble_start` sends them.
use nrf54l15_sniffer.Base.{
  ℕ, zero, suc, ◌≡◌, refl, sym, ap, ap₂, ◌∙◌, Bool, true, false, Bytes, take, drop, List, [], ◌∷◌,
  ◌++◌, ltb, ◌==◌, if◌then◌else◌, Code, success, failure, is_ok, Code-cases, Bool-cases, inl, inr,
  append_assoc, replicate, length, ◌/◌, ◌%◌, arith,
}
use mathlib.Core.Path.{fun_ext}
use nrf54l15_sniffer.Hci.{
  Opcode, reset, set_event_mask, le_set_event_mask, le_set_random_address, le_set_addr_res_enable,
  le_clear_rl, le_add_dev_to_rl, le_set_privacy_mode, le_clear_fal, le_add_dev_to_fal,
  le_set_scan_param, le_set_scan_enable, le_set_ext_scan_param, le_set_ext_scan_enable, Hci,
  Controller,
}
use nrf54l15_sniffer.Ble.{Ble, key_entry}
use nrf54l15_sniffer.Ble.Command.{send_command}
use nrf54l15_sniffer.Ble.Setup.{
  M, ◌>>◌, done, command, load_keys, apply_keys, load_filter, apply_filter, start_legacy_scan,
  start_extended_scan, configure, policy, phy_params, all_events, all_le_events, static_random_addr,
}

abbrev pub Command : Type 0
Command = Opcode × Bytes

-- Each key is followed by its device's privacy mode.
abbrev pub key_commands : ℕ → Bytes → List Command
key_commands zero keys = []
key_commands (suc n) keys =
    (le_add_dev_to_rl, take key_entry keys ++ replicate 16 0)
    ∷ (le_set_privacy_mode, take 7 keys ++ 1 ∷ [])
    ∷ key_commands n (drop key_entry keys)

-- The resolving list: off, cleared, filled, and on again if there are keys.
abbrev pub resolving_commands : Ble → List Command
resolving_commands b =
    (le_set_addr_res_enable, 0 ∷ [])
    ∷ (le_clear_rl, [])
    ∷ (key_commands b.key_count b.keys
        ++ (if ltb 0 b.key_count then (le_set_addr_res_enable, 1 ∷ []) ∷ [] else []))

abbrev pub filter_commands : List Bytes → List Command
filter_commands [] = []
filter_commands (e ∷ es) = (le_add_dev_to_fal, e) ∷ filter_commands es

-- Two bytes, the low one first.
abbrev word : ℕ → Bytes
word n = n % 256 ∷ n / 256 % 256 ∷ []

-- A PHY whose bit is set has its entry: a passive scan with its interval and window.
abbrev phy_entry : ℕ → ℕ → ℕ → ℕ → Bytes
phy_entry interval window phys weight =
    if phys / weight % 2 == 0 then [] else 0 ∷ (word interval ++ word window)

abbrev phy_entries : ℕ → ℕ → ℕ → Bytes
phy_entries interval window phys =
    let entry = phy_entry interval window phys in
    entry 1
    ++ (entry 2
        ++ (entry 4 ++ (entry 8 ++ (entry 16 ++ (entry 32 ++ (entry 64 ++ (entry 128 ++ [])))))))

-- 1 puts the accept list in force, and 0 does not.
abbrev pub in_force : List Bytes → ℕ
in_force [] = 0
in_force (e ∷ es) = 1

-- Passive, from a random address, without filtering duplicates.
abbrev pub scanning_commands : ℕ → ℕ → ℕ → ℕ → List Command
scanning_commands in_force interval window phys =
    if phys == 0
    then ((le_set_scan_param, 0 ∷ (word interval ++ word window ++ 1 ∷ in_force ∷ []))
        ∷ (le_set_scan_enable, 1 ∷ 0 ∷ [])
        ∷ [])
    else ((le_set_ext_scan_param, 1 ∷ in_force ∷ phys ∷ phy_entries interval window phys)
        ∷ (le_set_ext_scan_enable, 1 ∷ 0 ∷ 0 ∷ 0 ∷ 0 ∷ 0 ∷ [])
        ∷ [])

-- Reset first, then the masks and the address that it clears, the lists, and the scan last.
abbrev pub scan_commands : ℕ → ℕ → ℕ → Ble → List Command
scan_commands interval window phys b =
    (reset, [])
    ∷ (set_event_mask, 255 ∷ 255 ∷ 255 ∷ 255 ∷ 255 ∷ 255 ∷ 255 ∷ 63 ∷ [])
    ∷ (le_set_event_mask, 255 ∷ 255 ∷ 255 ∷ 255 ∷ 255 ∷ 255 ∷ 255 ∷ 255 ∷ [])
    ∷ (le_set_random_address, 1 ∷ 2 ∷ 3 ∷ 4 ∷ 5 ∷ 192 ∷ [])
    ∷ (resolving_commands b
        ++ ((le_clear_fal, [])
            ∷ (filter_commands b.filter
                ++ scanning_commands (in_force b.filter) interval window phys)))

phy_params_lem :
    (phys interval window : ℕ)
    → phy_params 8 0 phys interval window ≡ phy_entries interval window phys
unfolding phy_params
phy_params_lem phys interval window = refl

in_force_lem : (es : List Bytes) → (if ltb 0 (length es) then 1 else 0) ≡ in_force es
in_force_lem [] = refl
in_force_lem (e ∷ es) = ground arith

module _ (h : Hci) (c : Controller) where
  -- Send commands in order, and stop at the first that fails.
  unfoldable pub send_all : List Command → M h c
  send_all [] b s = (success, b, s)
  send_all ((op, params) ∷ cs) b s =
      let (code, b', s') = send_command h c op params b s in
      let rest = send_all cs b' s' in if is_ok code then rest else (code, b', s')

  abbrev seq : M h c → M h c → M h c
  seq = ◌>>◌ h c

  >>-done : (m : M h c) → m ≡ ◌>>◌ h c m (done h c)
  >>-done m = fun_ext λ b. fun_ext λ s. go (m b s)
    where
      go :
          (r : Code × Ble × c.State)
          → r ≡ (if is_ok r.0 then (success, r.1, r.2) else (r.0, r.1, r.2))
      go (success, b, s) = refl
      go (failure e, b, s) = refl

  send_all-append_at :
      (xs ys : List Command) (b : Ble) (s : c.State)
      → send_all (xs ++ ys) b s ≡ ◌>>◌ h c (send_all xs) (send_all ys) b s
  unfolding send_all
  send_all-append_at [] ys b s = refl
  send_all-append_at ((op, params) ∷ xs) ys b s =
      elim (Code-cases (send_command h c op params b s).0) [
        | inl done ↦ rw done (send_all-append_at xs ys _ _)
        | inr (e, failed) ↦ rw failed
      ]

  send_all-append :
      (xs ys : List Command) → send_all (xs ++ ys) ≡ ◌>>◌ h c (send_all xs) (send_all ys)
  send_all-append xs ys = fun_ext λ b. fun_ext λ s. send_all-append_at xs ys b s

  pub load_keys-send_all :
      (n : ℕ) (keys : Bytes) → load_keys h c n keys ≡ send_all (key_commands n keys)
  unfolding load_keys send_all
  load_keys-send_all zero keys = refl
  load_keys-send_all (suc n) keys =
      ap
        (λ m.
          ◌>>◌ h c (command h c le_add_dev_to_rl (take key_entry keys ++ replicate 16 0))
            (◌>>◌ h c (command h c le_set_privacy_mode (take 7 keys ++ 1 ∷ [])) m))
        (load_keys-send_all n (drop key_entry keys))

  load_filter-send_all : (es : List Bytes) → load_filter h c es ≡ send_all (filter_commands es)
  unfolding load_filter send_all
  load_filter-send_all [] = refl
  load_filter-send_all (e ∷ es) =
      ap (λ m. ◌>>◌ h c (command h c le_add_dev_to_fal e) m) (load_filter-send_all es)

  enable-send_all :
      (b : Bool)
      → (if b then command h c le_set_addr_res_enable (1 ∷ []) else done h c)
        ≡ send_all (if b then (le_set_addr_res_enable, 1 ∷ []) ∷ [] else [])
  unfolding send_all
  enable-send_all true = >>-done _
  enable-send_all false = refl

  apply_keys-send_all :
      (b : Ble) → apply_keys h c b.key_count b.keys ≡ send_all (resolving_commands b)
  unfolding apply_keys send_all
  apply_keys-send_all b =
      ap
        (λ m.
          seq (command h c le_set_addr_res_enable (0 ∷ [])) (seq (command h c le_clear_rl []) m))
        (ap₂ seq (load_keys-send_all b.key_count b.keys) (enable-send_all (ltb 0 b.key_count))
          ∙ sym (send_all-append (key_commands b.key_count b.keys) _))

  apply_filter-send_all :
      (b : Ble)
      → apply_filter h c b
        ≡ send_all (resolving_commands b ++ (le_clear_fal, []) ∷ filter_commands b.filter)
  unfolding apply_filter send_all
  apply_filter-send_all b =
      ap₂ seq (apply_keys-send_all b)
        (ap (seq (command h c le_clear_fal [])) (load_filter-send_all b.filter))
      ∙ sym (send_all-append (resolving_commands b) ((le_clear_fal, []) ∷ filter_commands b.filter))

  scan-send_all :
      (policy interval window phys : ℕ)
      → (if phys == 0
          then start_legacy_scan h c policy interval window
          else start_extended_scan h c policy phys interval window)
        ≡ send_all (scanning_commands policy interval window phys)
  unfolding start_legacy_scan start_extended_scan send_all
  scan-send_all policy interval window phys = elim (Bool-cases (phys == 0)) [
    | inl legacy ↦ rw legacy (
        ap (seq (command h c le_set_scan_param _))
          (>>-done (command h c le_set_scan_enable (1 ∷ 0 ∷ []))))
    | inr extended ↦
        rw (extended, phy_params_lem phys interval window)
          (ap (seq (command h c le_set_ext_scan_param _))
            (>>-done (command h c le_set_ext_scan_enable (1 ∷ 0 ∷ 0 ∷ 0 ∷ 0 ∷ 0 ∷ []))))
  ]

  -- The commands that `sn_radio_ble_start` sends for a scan are those of `scan_commands`, in that
  -- order, up to the first that fails: the reset before the masks, the address and the lists that it
  -- clears, the resolving list before the accept list that may name its identities, and the scan
  -- itself last: passive on every PHY, from the random address, reporting duplicates, and with the
  -- accept list in force exactly if a filter was given.
  pub configure-send_all :
      (interval window phys : ℕ) (b : Ble)
      → configure h c interval window phys b ≡ send_all (scan_commands interval window phys b)
  unfolding configure send_all
  configure-send_all interval window phys b =
      ap
        (λ m. seq (command h c reset []) (
          seq (command h c set_event_mask all_events) (
            seq (command h c le_set_event_mask all_le_events)
              (seq (command h c le_set_random_address static_random_addr) m))))
        (ap₂ seq (apply_filter-send_all b) (
            ap
              (λ p.
                if phys == 0
                then start_legacy_scan h c p interval window
                else start_extended_scan h c p phys interval window)
              (in_force_lem b.filter)
            ∙ scan-send_all (in_force b.filter) interval window phys)
          ∙ sym (send_all-append before scan)
          ∙ ap send_all (append_assoc (resolving_commands b) _ scan))
    where
      scan : List Command
      scan = scanning_commands (in_force b.filter) interval window phys

      before : List Command
      before = resolving_commands b ++ (le_clear_fal, []) ∷ filter_commands b.filter
