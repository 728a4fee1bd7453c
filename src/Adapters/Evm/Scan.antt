-- ===== src/Adapters/Evm/Scan.antt =====
-- The loop of evmHealthCheck over the stages of Erigon: what it makes of the heights that count.
use chainplane.Prelude.{
  ◌≡◌, ◌⊎◌, ◌≤◌, ◌∙◌, refl, inl, inr, ℕ, String, true, false, List, [], ◌∷◌, All, Any, arith,
  Bool-cases, if◌then◌else◌,
}
use chainplane.Adapters.Int64.{signed, is_positive, minus_one}
use chainplane.Adapters.Payloads.{GoTexts, SyncStage}
use chainplane.Adapters.Evm.{is_polygon_stage, StageScan, note_stage, scan_stages, hex_to_int64}

module _ (texts : GoTexts) where
  -- The heights of the stages that count: not those of Polygon, and above 0.
  unfoldable pub counted : List SyncStage → List ℕ
  counted [] = []
  counted (s ∷ stages) =
      let rest = counted stages in
      let n = hex_to_int64 texts s.block in
      if is_polygon_stage s.name then rest else if is_positive n then n ∷ rest else rest

-- The lowest and the highest of some heights, in the order of int64, or twice 0 if there is none.
pub record IsRange (low high : ℕ) (heights : List ℕ) : Type 0 where
  pub lowest : All (λ (n : ℕ). signed low ≤ signed n) heights
  pub highest : All (λ (n : ℕ). signed n ≤ signed high) heights
  pub attained :
      (Any (λ (n : ℕ). low ≡ n) heights × Any (λ (n : ℕ). high ≡ n) heights)
      ⊎ ((heights ≡ []) × (low ≡ 0) × (high ≡ 0))

-- What a loop over more heights makes of a lowest and a highest height.
pub record Extends (low high : ℕ) (r : StageScan) (heights : List ℕ) : Type 0 where
  pub below : signed r.current ≤ signed low
  pub above : signed high ≤ signed r.highest
  pub lowest : All (λ (n : ℕ). signed r.current ≤ signed n) heights
  pub highest : All (λ (n : ℕ). signed n ≤ signed r.highest) heights
  pub low_from : (r.current ≡ low) ⊎ Any (λ (n : ℕ). r.current ≡ n) heights
  pub high_from : (r.highest ≡ high) ⊎ Any (λ (n : ℕ). r.highest ≡ n) heights

-- A height that does not count leaves the scan as it is.
pub note_uncounted :
    (scan : StageScan) (name : String) (n : ℕ)
    → is_positive n ≡ false
    → signed 0 ≤ signed scan.highest
    → (note_stage scan name n).current ≡ scan.current
      × ((note_stage scan name n).highest ≡ scan.highest)
unfolding note_stage
note_uncounted scan name n h k = ground arith

-- A height that counts is taken up by a scan that has started.
note_counted :
    (scan : StageScan) (name : String) (n : ℕ)
    → is_positive n ≡ true
    → is_positive scan.current ≡ true
    → (signed (note_stage scan name n).current ≤ signed n)
      × (signed (note_stage scan name n).current ≤ signed scan.current)
      × (signed n ≤ signed (note_stage scan name n).highest)
      × (signed scan.highest ≤ signed (note_stage scan name n).highest)
      × (is_positive (note_stage scan name n).current ≡ true)
unfolding note_stage
note_counted scan name n h k = ground arith

note_origin :
    (scan : StageScan) (name : String) (n : ℕ)
    → (((note_stage scan name n).current ≡ scan.current) ⊎ ((note_stage scan name n).current ≡ n))
      × (((note_stage scan name n).highest ≡ scan.highest) ⊎ ((note_stage scan name n).highest ≡ n))
unfolding note_stage
note_origin scan name n = ground arith

pub note_first :
    (scan : StageScan) (name : String) (n : ℕ)
    → is_positive n ≡ true
    → scan.current ≡ minus_one
    → scan.highest ≡ 0
    → ((note_stage scan name n).current ≡ n) × ((note_stage scan name n).highest ≡ n)
unfolding note_stage
note_first scan name n h low high = ground arith

pub extend_same :
    (low high low' high' : ℕ) (r : StageScan) (heights : List ℕ)
    → low' ≡ low
    → high' ≡ high
    → Extends low' high' r heights
    → Extends low high r heights
extend_same low high low' high' r heights p q x = rw (p, q) at x

extend_counted :
    (scan : StageScan) (name : String) (n : ℕ) (r : StageScan) (heights : List ℕ)
    → is_positive n ≡ true
    → is_positive scan.current ≡ true
    → Extends (note_stage scan name n).current (note_stage scan name n).highest r heights
    → Extends scan.current scan.highest r (n ∷ heights)
extend_counted scan name n r heights h k x =
    let (a, b, c, d, _) = note_counted scan name n h k in
    let (from_low, from_high) = note_origin scan name n in
    record {
      below = omega (arith, x.below, b);
      above = omega (arith, x.above, d);
      lowest = (omega (arith, x.below, a), x.lowest);
      highest = (omega (arith, x.above, c), x.highest);
      low_from = elim x.low_from [
        | inr later ↦ inr (inr later)
        | inl here ↦ elim from_low [ inl old ↦ inl (here ∙ old) | inr new ↦ inr (inl (here ∙ new)) ]
      ];
      high_from = elim x.high_from [
        | inr later ↦ inr (inr later)
        | inl here ↦ elim from_high [
          | inl old ↦ inl (here ∙ old)
          | inr new ↦ inr (inl (here ∙ new))
        ]
      ];
    }

module _ (texts : GoTexts) where
  pub counted_skip :
      (s : SyncStage) (stages : List SyncStage)
      → is_polygon_stage s.name ≡ true
      → counted texts (s ∷ stages) ≡ counted texts stages
  unfolding counted
  counted_skip s stages h = rw h refl

  pub counted_low :
      (s : SyncStage) (stages : List SyncStage)
      → is_polygon_stage s.name ≡ false
      → is_positive (hex_to_int64 texts s.block) ≡ false
      → counted texts (s ∷ stages) ≡ counted texts stages
  unfolding counted
  counted_low s stages h k = rw (h, k) refl

  pub counted_more :
      (s : SyncStage) (stages : List SyncStage)
      → is_polygon_stage s.name ≡ false
      → is_positive (hex_to_int64 texts s.block) ≡ true
      → counted texts (s ∷ stages) ≡ hex_to_int64 texts s.block ∷ counted texts stages
  unfolding counted
  counted_more s stages h k = rw (h, k) refl

  pub scan_skip :
      (scan : StageScan) (s : SyncStage) (stages : List SyncStage)
      → is_polygon_stage s.name ≡ true
      → scan_stages texts scan (s ∷ stages) ≡ scan_stages texts scan stages
  unfolding scan_stages
  scan_skip scan s stages h = rw h refl

  pub scan_note :
      (scan : StageScan) (s : SyncStage) (stages : List SyncStage)
      → is_polygon_stage s.name ≡ false
      → scan_stages texts scan (s ∷ stages)
        ≡ scan_stages texts (note_stage scan s.name (hex_to_int64 texts s.block)) stages
  unfolding scan_stages
  scan_note scan s stages h = rw h refl

  -- A scan that has started.
  pub scan_started :
      (stages : List SyncStage) (scan : StageScan)
      → is_positive scan.current ≡ true
      → signed 0 ≤ signed scan.highest
      → Extends scan.current scan.highest (scan_stages texts scan stages) (counted texts stages)
  unfolding scan_stages counted
  scan_started [] scan h k = record {
    below = omega arith;
    above = omega arith;
    lowest = tt;
    highest = tt;
    low_from = inl refl;
    high_from = inl refl;
  }
  scan_started (s ∷ stages) scan h k =
      let n = hex_to_int64 texts s.block in
      let next = note_stage scan s.name n in
      elim (Bool-cases (is_polygon_stage s.name)) [
        | inl polygon ↦
            rw (counted_skip s stages polygon, scan_skip scan s stages polygon)
              (scan_started stages scan h k)
        | inr other ↦ elim (Bool-cases (is_positive n)) [
          | inr low ↦
              let (same_low, same_high) = note_uncounted scan s.name n low k in
              rw (counted_low s stages other low, scan_note scan s stages other)
                (extend_same _ _ _ _ _ _ same_low same_high
                  (scan_started stages next (rw same_low h) (rw same_high k)))
          | inl counts ↦
              let (_, _, _, above, positive) = note_counted scan s.name n counts h in
              rw (counted_more s stages other counts, scan_note scan s stages other)
                (extend_counted scan s.name n _ _ counts h
                  (scan_started stages next positive (omega (arith, above))))
        ]
      ]

  pub counted-All :
      (stages : List SyncStage) → All (λ (n : ℕ). is_positive n ≡ true) (counted texts stages)
  unfolding counted
  counted-All [] = tt
  counted-All (s ∷ stages) = elim (Bool-cases (is_polygon_stage s.name)) [
    | inl polygon ↦ rw polygon (counted-All stages)
    | inr other ↦ elim (Bool-cases (is_positive (hex_to_int64 texts s.block))) [
      | inl counts ↦ rw (other, counts) (counts, counted-All stages)
      | inr low ↦ rw (other, low) (counted-All stages)
    ]
  ]
