-- ===== src/Facts/Interval/Overlap.antt =====
-- `intervalsOverlap` of internal/facts/formal.go, and the days of two intervals.
use dph.Base.{◌≡◌, ◌↔◌, refl, ◌⊎◌, inl, inr, true, false, ◌&&◌, arith, Bool-cases}
use dph.Base.Text.{Bytes, codes, str_lt, str_lt_irrefl, str_lt_asymm, not_lt_trans, is_empty}
use dph.Facts.Interval.{normalize_day, active_in, active_at, overlap_in, intervals_overlap}

-- A common day of two normalised intervals makes them overlap.
overlap_of_common :
    (f1 t1 f2 t2 d : Bytes)
    → active_in f1 t1 d ≡ true
    → active_in f2 t2 d ≡ true
    → overlap_in f1 t1 f2 t2 ≡ true
unfolding active_in overlap_in
overlap_of_common f1 t1 f2 t2 d h k = ground (arith, not_lt_trans t1 d f2, not_lt_trans t2 d f1)

-- `from` is not after `to`, where both are set.
abbrev pub WellOrdered : Bytes → Bytes → Type 0
WellOrdered from to =
    (is_empty (normalize_day from) ≡ true)
    ⊎ ((is_empty (normalize_day to) ≡ true)
        ⊎ (str_lt (normalize_day to) (normalize_day from) ≡ false))

-- Day `d` is a real day, and both intervals are active on it.
abbrev pub CommonDay : Bytes → Bytes → Bytes → Bytes → Bytes → Type 0
CommonDay f1 t1 f2 t2 d =
    (is_empty (normalize_day d) ≡ false) × (active_at f1 t1 d ≡ true) × (active_at f2 t2 d ≡ true)

overlap_of_CommonDay :
    (f1 t1 f2 t2 d : Bytes) → CommonDay f1 t1 f2 t2 d → intervals_overlap f1 t1 f2 t2 ≡ true
unfolding active_at intervals_overlap
overlap_of_CommonDay f1 t1 f2 t2 d (ne, h, k) =
    overlap_of_common (normalize_day f1) (normalize_day t1) (normalize_day f2) (normalize_day t2)
      (normalize_day d) (rw ne at h) (rw ne at k)

some_day : is_empty (normalize_day (codes "2000-01-01")) ≡ false
unfolding normalize_day
some_day = refl

module _ (f1 t1 f2 t2 : Bytes) (w1 : WellOrdered f1 t1) (w2 : WellOrdered f2 t2)
    (o : intervals_overlap f1 t1 f2 t2 ≡ true) where
  -- A later start of the two intervals is a common day.
  common_of_start :
      (is_empty (normalize_day f1) && is_empty (normalize_day f2)) ≡ false
      → (d : Bytes) × CommonDay f1 t1 f2 t2 d
  unfolding active_at active_in intervals_overlap overlap_in
  common_of_start e = elim (Bool-cases (is_empty (normalize_day f1))) [
    | inl a ↦ (f2, (ground arith, ground arith, ground (arith, str_lt_irrefl (normalize_day f2))))
    | inr a ↦ elim (Bool-cases (is_empty (normalize_day f2))) [
      | inl b ↦ (f1, (a, ground (arith, str_lt_irrefl (normalize_day f1)), ground arith))
      | inr b ↦ elim (Bool-cases (str_lt (normalize_day f1) (normalize_day f2))) [
        | inl l ↦ (
          f2,
          (
            b,
            ground (arith, str_lt_asymm (normalize_day f1) (normalize_day f2)),
            ground (arith, str_lt_irrefl (normalize_day f2)),
          ),
        )
        | inr l ↦ (
          f1,
          (
            a,
            ground (arith, str_lt_irrefl (normalize_day f1)),
            ground (arith, str_lt_asymm (normalize_day f2) (normalize_day f1)),
          ),
        )
      ]
    ]
  ]

  -- With no start the earlier end is a common day.
  common_of_end :
      is_empty (normalize_day f1) ≡ true
      → is_empty (normalize_day f2) ≡ true
      → (d : Bytes) × CommonDay f1 t1 f2 t2 d
  unfolding active_at active_in
  common_of_end a b = elim (Bool-cases (is_empty (normalize_day t1))) [
    | inl p ↦ elim (Bool-cases (is_empty (normalize_day t2))) [
      | inl q ↦ (codes "2000-01-01", (some_day, ground arith, ground arith))
      | inr q ↦ (t2, (q, ground arith, ground (arith, str_lt_irrefl (normalize_day t2))))
    ]
    | inr p ↦ elim (Bool-cases (is_empty (normalize_day t2))) [
      | inl q ↦ (t1, (p, ground (arith, str_lt_irrefl (normalize_day t1)), ground arith))
      | inr q ↦ elim (Bool-cases (str_lt (normalize_day t1) (normalize_day t2))) [
        | inl l ↦ (
          t1,
          (
            p,
            ground (arith, str_lt_irrefl (normalize_day t1)),
            ground (arith, str_lt_asymm (normalize_day t1) (normalize_day t2)),
          ),
        )
        | inr l ↦ (t2, (q, ground (arith, l), ground (arith, str_lt_irrefl (normalize_day t2))))
      ]
    ]
  ]

  CommonDay-of_overlap : (d : Bytes) × CommonDay f1 t1 f2 t2 d
  CommonDay-of_overlap = elim (Bool-cases (is_empty (normalize_day f1))) [
    | inl a ↦ elim (Bool-cases (is_empty (normalize_day f2))) [
      | inl b ↦ common_of_end a b
      | inr b ↦ common_of_start (rw (a, b))
    ]
    | inr a ↦ common_of_start (rw a)
  ]

-- Two intervals whose starts are not after their ends overlap exactly when some day is active
-- in both of them.
pub overlap_iff_CommonDay :
    (f1 t1 f2 t2 : Bytes)
    → WellOrdered f1 t1
    → WellOrdered f2 t2
    → (intervals_overlap f1 t1 f2 t2 ≡ true) ↔ ((d : Bytes) × CommonDay f1 t1 f2 t2 d)
overlap_iff_CommonDay f1 t1 f2 t2 w1 w2 =
    (CommonDay-of_overlap f1 t1 f2 t2 w1 w2, λ c. overlap_of_CommonDay f1 t1 f2 t2 c.0 c.1)
