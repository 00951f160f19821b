-- ===== src/Ble/Setup/Host.antt =====
-- The filter and the keys from the host's frame to the commands that load them.
use nrf54l15_sniffer.Base.{
  ℕ, zero, suc, ◌+◌, ◌*◌, ◌/◌, ◌%◌, ◌<◌, ◌≡◌, refl, ap, ◌∙◌, Bool, true, false, not, Bytes, length,
  take, drop, get_or, List, [], ◌∷◌, ◌++◌, replicate, ltb, leb, ◌==◌, if◌then◌else◌, arith,
  append_assoc, ap₂, subst, ◌&&◌, take-append, append-nil, length-append, take-prefix, drop-prefix,
  get_or-append, Code, success, failure, einval, write_at, write_at-zero, Bool-cases, inl, inr,
}
use nrf54l15_sniffer.Hci.{Hci, Controller, le_add_dev_to_rl, le_set_privacy_mode}
use nrf54l15_sniffer.Ble.{Ble, max_filter, filter_entry, key_entry, max_keys, no_keys}
use nrf54l15_sniffer.Ble.Setup.{load_keys, filter_from, set_filter, bad_type, set_keys}
use nrf54l15_sniffer.Ble.Setup.Start.{send_all, load_keys-send_all, Command, key_commands}

abbrev pub concat : List Bytes → Bytes
concat [] = []
concat (e ∷ es) = e ++ concat es

-- Every entry has so many bytes.
abbrev pub AllLong : ℕ → List Bytes → Type 0
AllLong n [] = Unit {0}
AllLong n (e ∷ es) = (length e ≡ n) × AllLong n es

filter_from-concat :
    (n : ℕ) (es : List Bytes) (tail : Bytes)
    → AllLong filter_entry es
    → length tail < filter_entry
    → filter_from n (concat es ++ tail) ≡ take n es
unfolding filter_from
filter_from-concat zero es tail k short = refl
filter_from-concat (suc n) [] tail k short = rw few refl
  where
    few : leb filter_entry (length tail) ≡ false
    few = ground arith
filter_from-concat (suc n) (e ∷ es) tail k short =
    rw
      (
        append_assoc e (concat es) tail,
        enough,
        take-prefix filter_entry e (concat es ++ tail) k.0,
        drop-prefix filter_entry e (concat es ++ tail) k.0,
      )
      (ap (◌∷◌ e) (filter_from-concat n es tail k.1 short))
  where
    enough : leb filter_entry (length (e ++ (concat es ++ tail))) ≡ true
    enough = ground (arith, length-append e (concat es ++ tail), k.0)

-- A filter frame is read as the host wrote it: the first eight of its seven-byte entries, in order,
-- replace the filter, a cut entry at the end is ignored, and nothing else changes.
pub set_filter_lem :
    (es : List Bytes) (tail : Bytes) (b : Ble)
    → AllLong filter_entry es
    → length tail < filter_entry
    → set_filter (concat es ++ tail) b ≡ record b { filter = take max_filter es }
unfolding set_filter
set_filter_lem es tail b k short =
    ap (λ fs. record b { filter = fs }) (filter_from-concat max_filter es tail k short)

-- Every entry begins with one of the two address types, and whether that is so.
abbrev pub types_ok : List Bytes → Bool
types_ok [] = true
types_ok (e ∷ es) = not (ltb 1 (get_or e 0 0)) && types_ok es

length-concat : (n : ℕ) (es : List Bytes) → AllLong n es → length (concat es) ≡ length es * n
length-concat n [] k = omega arith
length-concat n (e ∷ es) k =
    length-append e (concat es) ∙ ap₂ ◌+◌ k.0 (length-concat n es k.1) ∙ more
  where
    more : n + length es * n ≡ suc (length es) * n
    more = omega arith

bad_type-concat :
    (es : List Bytes) (tail : Bytes)
    → AllLong key_entry es
    → bad_type (length es) (concat es ++ tail) ≡ not (types_ok es)
unfolding bad_type
bad_type-concat [] tail k = refl
bad_type-concat (e ∷ es) tail k =
    rw
      (
        append_assoc e (concat es) tail,
        drop-prefix key_entry e (concat es ++ tail) k.0,
        get_or-append e (concat es ++ tail) 0 0 (omega (arith, k.0)),
      )
      (ground (arith, bad_type-concat es tail k.1))

-- What a frame of keys leaves.
abbrev pub with_keys : List Bytes → Ble → Ble
with_keys es b = record b {
  keys = concat es ++ drop (length (concat es)) no_keys;
  key_count = length es;
}

-- A frame of keys, cut into its 23-byte entries and what is left at the end, is taken exactly if
-- nothing is left, there are at most eight entries and each begins with a public or a random
-- address type; then its entries are the keys. Else it is refused whole: the keys that were there
-- stay, and none of its own is kept.
pub set_keys_lem :
    (es : List Bytes) (tail : Bytes) (b : Ble)
    → AllLong key_entry es
    → length tail < key_entry
    → set_keys (concat es ++ tail) b ≡ (
        if length tail == 0 && (leb (length es) max_keys && types_ok es)
        then (success, with_keys es b)
        else (failure einval, b))
unfolding set_keys
set_keys_lem es (t ∷ tail) b k short = rw (refused, some_left) refl
  where
    some_left : (suc (length tail) == 0) ≡ false
    some_left = ground arith

    total : length (concat es ++ t ∷ tail) ≡ length es * key_entry + length (t ∷ tail)
    total =
        length-append (concat es) (t ∷ tail)
        ∙ ap (λ n. n + length (t ∷ tail)) (length-concat key_entry es k)

    refused : (length (concat es ++ t ∷ tail) % key_entry == 0) ≡ false
    refused = ground (arith, total)
set_keys_lem es [] b k short =
    rw (append-nil (concat es), whole, entries)
      (elim (Bool-cases (ltb max_keys (length es))) [
        | inl many ↦ rw (many, too_many many) refl
        | inr few ↦ rw (few, not_many few, types) (accepted few)
      ])
  where
    total : length (concat es) ≡ length es * key_entry
    total = length-concat key_entry es k

    whole : (length (concat es) % key_entry == 0) ≡ true
    whole = ground (arith, total)

    entries : length (concat es) / key_entry ≡ length es
    entries = omega (arith, total)

    too_many : ltb max_keys (length es) ≡ true → leb (length es) max_keys ≡ false
    too_many many = ground arith

    not_many : ltb max_keys (length es) ≡ false → leb (length es) max_keys ≡ true
    not_many few = ground arith

    types : bad_type (length es) (concat es) ≡ not (types_ok es)
    types =
        subst (λ p. bad_type (length es) p ≡ not (types_ok es)) (append-nil (concat es))
          (bad_type-concat es [] k)

    accepted :
        ltb max_keys (length es) ≡ false
        → ◌≡◌ {A = Code × Ble}
            (if not (types_ok es) then (failure einval, b) else (
              success,
              record b { keys = write_at no_keys 0 (concat es); key_count = length es },
            ))
            (if types_ok es then (success, with_keys es b) else (failure einval, b))
    accepted few =
        rw (write_at-zero no_keys (concat es) (ground (arith, total)))
          (elim (Bool-cases (types_ok es)) [ inl good ↦ rw good refl | inr bad ↦ rw bad refl ])

-- The commands that load a key each: the entry as the host sent it and no local key, then device
-- privacy for its address.
abbrev pub commands_of : List Bytes → List Command
commands_of [] = []
commands_of (e ∷ es) =
    (le_add_dev_to_rl, e ++ replicate 16 0)
    ∷ (le_set_privacy_mode, take 7 e ++ 1 ∷ [])
    ∷ commands_of es

key_commands-concat :
    (es : List Bytes) (rest : Bytes)
    → AllLong key_entry es
    → key_commands (length es) (concat es ++ rest) ≡ commands_of es
key_commands-concat [] rest k = refl
key_commands-concat (e ∷ es) rest k =
    rw
      (
        append_assoc e (concat es) rest,
        take-prefix key_entry e (concat es ++ rest) k.0,
        drop-prefix key_entry e (concat es ++ rest) k.0,
        take-append 7 e (concat es ++ rest) (omega (arith, k.0)),
      )
      (ap
        (λ cs.
          (le_add_dev_to_rl, e ++ replicate 16 0) ∷ (le_set_privacy_mode, take 7 e ++ 1 ∷ []) ∷ cs)
        (key_commands-concat es rest k.1))

-- The keys of an accepted frame, as they lie in the array, reach the controller's resolving list one
-- by one and in order, each with its address, its identity key and no local key, and each followed by
-- device privacy for it, until the controller refuses a command.
pub load_keys_lem :
    (h : Hci) (c : Controller) (es : List Bytes) (rest : Bytes)
    → AllLong key_entry es
    → load_keys h c (length es) (concat es ++ rest) ≡ send_all h c (commands_of es)
load_keys_lem h c es rest k =
    load_keys-send_all h c (length es) (concat es ++ rest)
    ∙ ap (send_all h c) (key_commands-concat es rest k)
