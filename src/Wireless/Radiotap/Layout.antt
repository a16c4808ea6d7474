-- ===== src/Wireless/Radiotap/Layout.antt =====
-- The layout that radiotap prescribes: the fields that are present, in order, each at the next place
-- that is a multiple of its alignment.
use odp_libtrace.Prelude.{
  ℕ, zero, suc, ◌+◌, ◌-◌, ◌*◌, ◌%◌, ◌≡◌, ◌<◌, ◌≤◌, refl, ap, sym, ◌∙◌, arith, Bool, true, false,
  not, Ptr, ◌==◌, if◌then◌else◌, Option, none, some, List, [], ◌∷◌, Bool-cases, inl, inr,
}
use odp_libtrace.Protocols.Cursor.{Memory}
use odp_libtrace.Wireless.Radiotap.Field
use odp_libtrace.Wireless.Radiotap.{
  has, le32, field_from, skip_extended, trace_get_radiotap_field, align_natural_16, pass,
}

-- A field starts at a multiple of 1, 2 or 8 bytes from the start of the header.
pub data Alignment : Type 0 where
  byte word long : Alignment

pub record Shape : Type 0 where
  pub size : ℕ
  pub alignment : Alignment

abbrev pub shapes : List Shape
shapes =
    record { size = 8; alignment = long }
    ∷ record { size = 1; alignment = byte }
    ∷ record { size = 1; alignment = byte }
    ∷ record { size = 4; alignment = word }
    ∷ record { size = 2; alignment = word }
    ∷ record { size = 1; alignment = byte }
    ∷ record { size = 1; alignment = byte }
    ∷ record { size = 2; alignment = word }
    ∷ record { size = 2; alignment = word }
    ∷ record { size = 2; alignment = word }
    ∷ record { size = 1; alignment = byte }
    ∷ record { size = 1; alignment = byte }
    ∷ record { size = 1; alignment = byte }
    ∷ record { size = 1; alignment = byte }
    ∷ []

-- The next place at `at` or behind it, and whether the alignment is that of eight bytes.
abbrev pub align : Alignment → ℕ → ℕ
align byte at = at
align word at = at + at % 2
align long at = at + (8 - at % 8) % 8

abbrev pub is_word : Alignment → Bool
is_word word = true
is_word _ = false

abbrev pub is_long : Alignment → Bool
is_long long = true
is_long _ = false

-- The offset of a field from the start of the header, if those from number `k` on have these shapes.
abbrev pub offset_from : ℕ → ℕ → ℕ → ℕ → List Shape → Option ℕ
offset_from present field k at [] = none
offset_from present field k at (s ∷ ss) =
    let next = if has present k then align s.alignment at + s.size else at in
    let rest = offset_from present field (suc k) next ss in
    if field == k then some (align s.alignment at) else rest

-- The header is eight bytes and the further words of the bitmask, `words` of them; the fields follow.
abbrev pub offset : ℕ → ℕ → ℕ → Option ℕ
offset words present field = offset_from present field 0 (8 + 4 * words) shapes

-- No field that is present in front of the one that is looked for needs a byte of padding; nor does
-- that one, if it wants a multiple of eight.
abbrev pub Unpadded : ℕ → ℕ → ℕ → ℕ → List Shape → Type 0
Unpadded present field k at [] = Unit {0}
Unpadded present field k at (s ∷ ss) =
    (k < field + (if is_long s.alignment then 1 else 0)
      → has present k ≡ true
      → align s.alignment at ≡ at)
    × Unpadded present field (suc k) (if has present k then at + s.size else at) ss

-- What the code does, shape by shape.
walk : ℕ → Ptr → ℕ → ℕ → Ptr → List Shape → Option Ptr
walk present s field k p [] = none
walk present s field k p (t ∷ ts) =
    let rest = walk present s field (suc k) (pass present k t.size p) ts in
    if field == k then some (if is_word t.alignment then align_natural_16 p s else p) else rest

field_from-walk :
    (present : ℕ) (s : Ptr) (field : ℕ)
    → field_from present s field ≡ walk present s field 0 s shapes
unfolding field_from walk
field_from-walk present s field = refl

add_assoc : (a b c : ℕ) → a + b + c ≡ a + (b + c)
add_assoc a b c = omega arith

-- An alignment by the code, from an even offset `start` on, is the one from the start of the header.
align_lem :
    (link start at : ℕ) (t : Alignment)
    → start % 2 ≡ 0
    → start ≤ at
    → (is_long t ≡ true → align t at ≡ at)
    → some (if is_word t then align_natural_16 (link + at) (link + start) else link + at)
      ≡ some (link + align t at)
align_lem link start at word even le placed =
    let apart : link + at - (link + start) ≡ at - start = omega arith in
    ap some (rw (apart) (ground arith))
align_lem link start at long even le placed = ap (λ n. some (link + n)) (sym (placed refl))
align_lem link start at byte even le placed = refl

walk-offset :
    (present : ℕ) (link start field k at : ℕ) (ss : List Shape)
    → start % 2 ≡ 0
    → start ≤ at
    → k ≤ field
    → has present field ≡ true
    → Unpadded present field k at ss
    → (walk present (link + start) field k (link + at) ss)
      ≡ (elim (offset_from present field k at ss) [ none ↦ none | some n ↦ some (link + n) ])
unfolding walk
walk-offset present link start field k at [] even after le is_there u = refl
walk-offset present link start field k at (t ∷ ts) even after le is_there u =
    elim (Bool-cases (field == k)) [
      | inl e ↦
          let same : field ≡ k = ground arith in
          rw (
            e,
            align_lem link start at t.alignment even after
                (λ l. u.0 (ground (arith, l, same)) (ap (has present) (sym same) ∙ is_there)),
          )
      | inr e ↦
          let lt : k < field = ground arith in
          let placed : has present k ≡ true → align t.alignment at ≡ at =
            λ h. u.0 (omega (arith, lt)) h in
          elim (Bool-cases (has present k)) [
            | inl h ↦
                let u' : Unpadded present field (suc k) (at + t.size) ts = rw (h) at u.1 in
                rw (e, h, placed h, add_assoc link at t.size)
                  (walk-offset present link start field (suc k) (at + t.size) ts even
                    (omega (arith, after)) lt is_there u')
            | inr h ↦
                let u' : Unpadded present field (suc k) at ts = rw (h) at u.1 in
                rw (e, h)
                  (walk-offset present link start field (suc k) at ts even after lt is_there u')
          ]
    ]

field_from-offset :
    (words present link field : ℕ)
    → has present field ≡ true
    → Unpadded present field 0 (8 + 4 * words) shapes
    → field_from present (link + (8 + 4 * words)) field
      ≡ (elim (offset words present field) [ none ↦ none | some at ↦ some (link + at) ])
field_from-offset words present link field is_there u =
    field_from-walk present (link + (8 + 4 * words)) field
    ∙ walk-offset present link (8 + 4 * words) field 0 (8 + 4 * words) shapes (omega arith)
        (omega arith) (omega arith) is_there u

-- A bitmask of `n` words behind a first one.
abbrev pub EndsAfter : Memory → Ptr → ℕ → Type 0
EndsAfter m p zero = has (le32 m p) 31 ≡ false
EndsAfter m p (suc n) = (has (le32 m p) 31 ≡ true) × EndsAfter m (p + 4) n

skip_extended-EndsAfter :
    (fuel n : ℕ) (m : Memory) (p : Ptr)
    → EndsAfter m p n
    → n < fuel
    → skip_extended fuel m p ≡ some (p + 4 * n)
unfolding skip_extended
skip_extended-EndsAfter zero n m p ends lt = absurd (omega arith)
skip_extended-EndsAfter (suc fuel) zero m p ends lt = rw (ends) (ap some (omega arith))
skip_extended-EndsAfter (suc fuel) (suc n) m p ends lt =
    let more : p + 4 + 4 * n ≡ p + 4 * suc n = omega arith in
    rw (ends.0, skip_extended-EndsAfter fuel n m (p + 4) ends.1 (omega arith)) (ap some more)

-- A field is found just if its bit is set and it is one of the first fourteen, at the place that the
-- layout gives it, if no present field in front of it needs padding, nor the field itself where it
-- is the timer, and the words of the bitmask are no more than are looked at.
pub radiotap_field-Placed :
    (fuel n : ℕ) (m : Memory) (link : Ptr) (field : ℕ)
    → EndsAfter m (link + 4) n
    → n < fuel
    → Unpadded (le32 m (link + 4)) field 0 (8 + 4 * n) shapes
    → trace_get_radiotap_field fuel m link field ≡ (
        if has (le32 m (link + 4)) field
        then (elim (offset n (le32 m (link + 4)) field) [
          | none ↦ none
          | some at ↦ some (link + at)
        ])
        else none)
unfolding trace_get_radiotap_field
radiotap_field-Placed fuel n m link field ends lt u =
    let first : link + 4 + 4 * n + 4 ≡ link + (8 + 4 * n) = omega arith in
    elim (Bool-cases (has (le32 m (link + 4)) field)) [
      | inl is_there ↦
          rw (is_there, skip_extended-EndsAfter fuel n m (link + 4) ends lt, first)
            (field_from-offset n (le32 m (link + 4)) link field is_there u)
      | inr gone ↦ rw (gone)
    ]

-- The signal strength stands one byte behind the place where it is looked for, if the channel is
-- there, the hop set is not, just one of the flags and the rate is, and the timer, where it is there,
-- needs no padding.
pub channel_misplaces :
    (words present link : ℕ)
    → (has present Field.tsft ≡ true → words % 2 ≡ 0)
    → has present Field.channel ≡ true
    → has present Field.fhss ≡ false
    → has present Field.flags ≡ not (has present Field.rate)
    → (at : ℕ) × (offset words present Field.dbm_antsignal ≡ some (suc at))
      × (field_from present (link + (8 + 4 * words)) Field.dbm_antsignal ≡ some (link + at))
unfolding field_from
channel_misplaces words present link timer c h one = elim (Bool-cases (has present Field.tsft)) [
  | inl t ↦
      let placed : align long (8 + 4 * words) ≡ 8 + 4 * words = omega (arith, timer t) in
      let odd : (8 + 4 * words + 8 + 1) % 2 ≡ 1 = omega arith in
      elim (Bool-cases (has present Field.rate)) [
        | inl r ↦ (
          8 + 4 * words + 13,
          rw (c, h, one, r, t, placed, odd) (ap some (omega arith)),
          rw (c, h, one, r, t) (ap some (omega arith)),
        )
        | inr r ↦ (
          8 + 4 * words + 13,
          rw (c, h, one, r, t, placed, odd) (ap some (omega arith)),
          rw (c, h, one, r, t) (ap some (omega arith)),
        )
      ]
  | inr t ↦
      let odd : (8 + 4 * words + 1) % 2 ≡ 1 = omega arith in
      elim (Bool-cases (has present Field.rate)) [
        | inl r ↦ (
          8 + 4 * words + 5,
          rw (c, h, one, r, t, odd) (ap some (omega arith)),
          rw (c, h, one, r, t) (ap some (omega arith)),
        )
        | inr r ↦ (
          8 + 4 * words + 5,
          rw (c, h, one, r, t, odd) (ap some (omega arith)),
          rw (c, h, one, r, t) (ap some (omega arith)),
        )
      ]
]
