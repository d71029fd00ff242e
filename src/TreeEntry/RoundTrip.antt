-- ===== src/TreeEntry/RoundTrip.antt =====
-- A tree as Git writes it is read back entry by entry.
use open_relic.Prelude.{
  ℕ, zero, suc, ◌≤◌, ◌<◌, ◌≡◌, ◌≢◌, refl, sym, ap, ◌∙◌, List, [], ◌∷◌, ◌++◌, map, All, all, length,
  arith, true, false, some, take-append, drop-append, ltb, leb, ◌==◌, ◌&&◌, ok, length-append,
}
use open_relic.Prelude.Codes.{Text}
use open_relic.Prelude.Strings.{IsDecoder}
use open_relic.Hex.{to_hex}
use open_relic.TreeEntry.{
  ParsedTreeEntry, entry, Scan, cut, is_mode, next_entry, entries_loop, entries_step, tree_entries,
}

-- An entry to write: its mode in digits, its name and the 20 bytes of its id.
pub record RawEntry : Type 0 where
  pub mode : Text
  pub name : List ℕ
  pub id : List ℕ

pub record IsRawEntry (e : RawEntry) : Type 0 where
  pub octal : is_mode e.mode ≡ true
  pub no_nul : All (λ (b : ℕ). b ≢ 0) e.name
  pub twenty : length e.id ≡ 20

abbrev pub write_tree : List RawEntry → List ℕ
write_tree [] = []
write_tree (e ∷ es) = e.mode ++ (0x20 ∷ (e.name ++ (0x00 ∷ (e.id ++ write_tree es))))

abbrev pub parsed : RawEntry → ParsedTreeEntry
parsed e = record { mode = e.mode; name = e.name; oid = to_hex e.id }

cut-append :
    (byte : ℕ) (a b : List ℕ)
    → All (λ (x : ℕ). x ≢ byte) a
    → cut byte (a ++ (byte ∷ b)) ≡ some (a, b)
unfolding cut
cut-append byte [] b h = ground arith
cut-append byte (x ∷ a) b (h, hs) =
    let other : (x == byte) ≡ false = ground (arith, h) in rw (cut-append byte a b hs, other) refl

-- The digits of a mode are ASCII, and no spaces.
digits_plain :
    (digits : Text)
    → all (λ c. leb 48 c && leb c 55) digits ≡ true
    → All (λ (x : ℕ). x ≢ 0x20) digits × All (λ (x : ℕ). x < 128) digits
digits_plain [] h = (tt, tt)
digits_plain (c ∷ digits) h =
    let (a, b) = digits_plain digits (ground (arith, h)) in
    ((ground (arith, h), a), (ground (arith, h), b))

module _ (decode : List ℕ → Text) (utf8 : IsDecoder decode) where
  next_entry-raw :
      (e : RawEntry) (rest : List ℕ)
      → IsRawEntry e
      → next_entry decode (e.mode ++ (0x20 ∷ (e.name ++ (0x00 ∷ (e.id ++ rest)))))
        ≡ entry (parsed e) rest
  unfolding next_entry
  next_entry-raw e rest h =
      let (no_space, plain) = digits_plain e.mode (ground (arith, h.octal)) in
      let enough : ltb (length (e.id ++ rest)) 20 ≡ false =
        ground (arith, length-append e.id rest, h.twenty) in
      rw
        (
          next_entry,
          cut-append 0x20 e.mode (e.name ++ (0x00 ∷ (e.id ++ rest))) no_space,
          cut-append 0x00 e.name (e.id ++ rest) h.no_nul,
          enough,
          utf8 e.mode plain,
          h.octal,
          take-append e.id rest {n = 20} (sym h.twenty),
          drop-append e.id rest {n = 20} (sym h.twenty),
        )
        refl

  loop_round :
      (fuel : ℕ) (bytes rest : List ℕ) (e : ParsedTreeEntry)
      → 0 < length bytes
      → next_entry decode bytes ≡ entry e rest
      → entries_loop decode (suc fuel) bytes
        ≡ entries_step (entries_loop decode fuel) (entry e rest)
  unfolding entries_loop
  loop_round fuel [] rest e b h = absurd (omega arith)
  loop_round fuel (x ∷ bytes) rest e b h = ap (entries_step (entries_loop decode fuel)) h

  loop-write_tree :
      (fuel : ℕ) (es : List RawEntry)
      → All IsRawEntry es
      → length es ≤ fuel
      → entries_loop decode fuel (write_tree es) ≡ record { entries = map parsed es; ended = ok tt }
  unfolding entries_step entries_loop
  loop-write_tree fuel [] h b = refl
  loop-write_tree zero (e ∷ es) h b = absurd (omega arith)
  loop-write_tree (suc fuel) (e ∷ es) (h, hs) b =
      let tail = e.name ++ (0x00 ∷ (e.id ++ write_tree es)) in
      let some_bytes : 0 < length (e.mode ++ (0x20 ∷ tail)) =
        omega (arith, length-append e.mode (0x20 ∷ tail)) in
      loop_round fuel (write_tree (e ∷ es)) (write_tree es) (parsed e) some_bytes
        (next_entry-raw e (write_tree es) h)
      ∙ ap (λ (s : Scan). record { entries = parsed e ∷ s.entries; ended = s.ended })
          (loop-write_tree fuel es hs (omega arith))

write_tree_long : (es : List RawEntry) → length es ≤ length (write_tree es)
write_tree_long [] = omega arith
write_tree_long (e ∷ es) =
    let tail = e.name ++ (0x00 ∷ (e.id ++ write_tree es)) in
    omega (
      arith,
      write_tree_long es,
      length-append e.mode (0x20 ∷ tail),
      length-append e.name (0x00 ∷ (e.id ++ write_tree es)),
      length-append e.id (write_tree es),
    )

-- A tree of any entries, written as Git writes it, is read back entry by entry in their order, each
-- id in hexadecimal, and the scan ends without an error. The modes are five or six octal digits, the
-- names have no NUL in them, and the ids are 20 bytes.
pub tree_entries-write_tree :
    (decode : List ℕ → Text) (es : List RawEntry)
    → IsDecoder decode
    → All IsRawEntry es
    → tree_entries decode (write_tree es) ≡ record { entries = map parsed es; ended = ok tt }
unfolding tree_entries
tree_entries-write_tree decode es utf8 h =
    loop-write_tree decode utf8 (length (write_tree es)) es h (write_tree_long es)
