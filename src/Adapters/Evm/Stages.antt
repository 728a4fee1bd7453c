-- ===== src/Adapters/Evm/Stages.antt =====
-- The heights that evmHealthCheck takes from the stages of Erigon.
use chainplane.Prelude.{
  ◌≡◌, ◌⊎◌, ◌∙◌, refl, inl, inr, ℕ, String, true, List, [], ◌∷◌, All, Any, arith, Bool-cases,
}
use chainplane.Adapters.Int64.{is_positive, minus_one}
use chainplane.Adapters.Payloads.{GoTexts, SyncStage}
use chainplane.Adapters.Evm.{
  is_polygon_stage, StageScan, no_stages, note_stage, scan_stages, hex_to_int64, settle,
  evm_heights,
}
use chainplane.Adapters.Evm.Scan.{
  counted, IsRange, Extends, note_uncounted, note_first, extend_same, counted_skip, counted_low,
  counted_more, scan_skip, scan_note, scan_started, counted-All,
}

positive_of :
    (low : ℕ) (heights : List ℕ)
    → All (λ (n : ℕ). is_positive n ≡ true) heights
    → Any (λ (n : ℕ). low ≡ n) heights
    → is_positive low ≡ true
positive_of low [] all any = absurd any
positive_of low (n ∷ heights) (p, all) (inl e) = rw e p
positive_of low (n ∷ heights) (p, all) (inr any) = positive_of low heights all any

-- A scan that starts at a height has the range of all of them.
extended-IsRange :
    (n : ℕ) (r : StageScan) (heights : List ℕ)
    → Extends n n r heights
    → IsRange r.current r.highest (n ∷ heights)
extended-IsRange n r heights x = record {
  lowest = (x.below, x.lowest);
  highest = (x.above, x.highest);
  attained = inl (x.low_from, x.high_from);
}

module _ (texts : GoTexts) where
  -- A scan that has not started: it stays so, or it has the range of the heights that count.
  scan_fresh :
      (stages : List SyncStage) (scan : StageScan)
      → scan.current ≡ minus_one
      → scan.highest ≡ 0
      → ((counted texts stages ≡ [])
          × ((scan_stages texts scan stages).current ≡ minus_one)
          × ((scan_stages texts scan stages).highest ≡ 0))
        ⊎ (IsRange
              (scan_stages texts scan stages).current
              (scan_stages texts scan stages).highest
              (counted texts stages)
            × (is_positive (scan_stages texts scan stages).current ≡ true))
  unfolding scan_stages counted
  scan_fresh [] scan h k = inl (refl, h, k)
  scan_fresh (s ∷ stages) scan h k =
      let n = hex_to_int64 texts s.block in
      let next = note_stage scan s.name n in
      elim (Bool-cases (is_polygon_stage s.name)) [
        | inl polygon ↦
            rw (counted_skip texts s stages polygon, scan_skip texts scan s stages polygon)
              (scan_fresh stages scan h k)
        | inr other ↦ elim (Bool-cases (is_positive n)) [
          | inr low ↦
              let (same_low, same_high) = note_uncounted scan s.name n low (omega (arith, k)) in
              rw (counted_low texts s stages other low, scan_note texts scan s stages other)
                (scan_fresh stages next (same_low ∙ h) (same_high ∙ k))
          | inl counts ↦
              let (starts_low, starts_high) = note_first scan s.name n counts h k in
              let started =
                scan_started texts stages next (rw starts_low counts)
                  (rw starts_high (ground arith)) in
              let x = extend_same _ _ _ _ _ _ starts_low starts_high started in
              rw (counted_more texts s stages other counts, scan_note texts scan s stages other)
                (inr (
                  extended-IsRange n _ _ x,
                  positive_of _ (n ∷ counted texts stages) (counts, counted-All texts stages)
                      x.low_from,
                ))
        ]
      ]

  settled-IsRange :
      (stages : List SyncStage)
      → IsRange
          (settle (scan_stages texts no_stages stages)).current
          (settle (scan_stages texts no_stages stages)).highest
          (counted texts stages)
  settled-IsRange stages = elim (scan_fresh stages no_stages refl refl) [
    | inl (empty, low, high) ↦ record {
      lowest = rw empty tt;
      highest = rw empty tt;
      attained = inr (empty, ground arith, high);
    }
    | inr (range, positive) ↦
        let same : (settle (scan_stages texts no_stages stages)).current
            ≡ (scan_stages texts no_stages stages).current =
          ground arith in
        rw same range
  ]

  -- Where a syncing object has stages, evmHealthCheck takes from them the lowest and the highest of the heights
  -- that are above 0 and not of a Polygon stage, in the order of int64, or twice 0 if there is no such height.
  pub evm_heights-IsRange :
      (highest_block : String) (s : SyncStage) (stages : List SyncStage) (block : ℕ)
      → let heights =
          evm_heights texts (record { highest_block = highest_block; stages = s ∷ stages }) block in
        IsRange heights.0 heights.1 (counted texts (s ∷ stages))
  unfolding evm_heights
  evm_heights-IsRange highest_block s stages block = settled-IsRange (s ∷ stages)
