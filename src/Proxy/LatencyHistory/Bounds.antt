-- ===== src/Proxy/LatencyHistory/Bounds.antt =====
-- What the latency history keeps: recent samples, no more than the limit, the newest last.
use mcbeproxy.Base.{
  ℕ, suc, ◌-◌, ◌≤◌, ◌<◌, ◌≡◌, refl, ap, ◌&&◌, List, [], ◌∷◌, ◌++◌, arith, ltb, length, length-drop,
  All, All-append, All-drop, Bool-cases, inl, inr,
}
use mcbeproxy.Proxy.LatencyHistory.{
  OutboundLatencySample, cutoff_of, filtered, replace_last, is_close, keep_last, append_sample,
}

length-filtered : (c : ℕ) (ss : List OutboundLatencySample) → length (filtered c ss) ≤ length ss
unfolding filtered
length-filtered c [] = omega arith
length-filtered c (s ∷ ss) = ground (arith, length-filtered c ss)

length-replace_last :
    (x : OutboundLatencySample) (ss : List OutboundLatencySample)
    → length (replace_last x ss) ≡ length ss
unfolding replace_last
length-replace_last x [] = refl
length-replace_last x (s ∷ []) = refl
length-replace_last x (s ∷ s' ∷ ss) = ap suc (length-replace_last x (s' ∷ ss))

-- With a limit set, a history within it stays within it when a sample is added.
pub append_sample-bounded :
    (retention min_interval limit : ℕ) (samples : List OutboundLatencySample)
    (sample : OutboundLatencySample)
    → 0 < limit
    → length samples ≤ limit
    → length (append_sample retention min_interval limit samples sample) ≤ limit
unfolding append_sample
append_sample-bounded retention min_interval limit samples sample h k =
    let c = cutoff_of sample.timestamp retention in
    elim (Bool-cases (is_close min_interval sample (filtered c samples))) [
      | inl close ↦
          rw (append_sample, close)
            (omega
              (arith, length-replace_last sample (filtered c samples), length-filtered c samples))
      | inr far ↦ rw (append_sample, far) (kept (filtered c samples ++ (sample ∷ [])))
    ]
  where
    kept : (ss : List OutboundLatencySample) → length (keep_last limit ss) ≤ limit
    kept ss = ground (arith, h, length-drop (length ss - limit) ss)

abbrev pub IsRecent : ℕ → OutboundLatencySample → Type 0
IsRecent cutoff s = cutoff ≤ s.timestamp

filtered-IsRecent : (c : ℕ) (ss : List OutboundLatencySample) → All (IsRecent c) (filtered c ss)
unfolding filtered
filtered-IsRecent c [] = tt
filtered-IsRecent c (s ∷ ss) = elim (Bool-cases (ltb s.timestamp c)) [
  | inl old ↦ rw (filtered, old) (filtered-IsRecent c ss)
  | inr recent ↦ rw (filtered, recent) (ground arith, filtered-IsRecent c ss)
]

replace_last-IsRecent :
    (c : ℕ) (x : OutboundLatencySample) (ss : List OutboundLatencySample)
    → IsRecent c x
    → All (IsRecent c) ss
    → All (IsRecent c) (replace_last x ss)
unfolding replace_last
replace_last-IsRecent c x [] h a = tt
replace_last-IsRecent c x (s ∷ []) h a = (h, tt)
replace_last-IsRecent c x (s ∷ s' ∷ ss) h a = (a.0, replace_last-IsRecent c x (s' ∷ ss) h a.1)

-- After a sample is added, no sample is older than the retention before it.
pub append_sample-IsRecent :
    (retention min_interval limit : ℕ) (samples : List OutboundLatencySample)
    (sample : OutboundLatencySample)
    → All
        (IsRecent (cutoff_of sample.timestamp retention))
        (append_sample retention min_interval limit samples sample)
unfolding append_sample
append_sample-IsRecent retention min_interval limit samples sample =
    let c = cutoff_of sample.timestamp retention in
    let itself : c ≤ sample.timestamp = omega arith in
    elim (Bool-cases (is_close min_interval sample (filtered c samples))) [
      | inl close ↦
          rw (append_sample, close)
            (replace_last-IsRecent c sample (filtered c samples) itself
              (filtered-IsRecent c samples))
      | inr far ↦
          (rw (append_sample, far)
            (kept c (filtered c samples ++ (sample ∷ [])) (
              All-append (IsRecent c) (filtered c samples) (sample ∷ [])
                (filtered-IsRecent c samples) (itself, tt))))
    ]
  where
    kept :
        (c : ℕ) (ss : List OutboundLatencySample)
        → All (IsRecent c) ss
        → All (IsRecent c) (keep_last limit ss)
    kept c ss a = elim (Bool-cases (ltb 0 limit && ltb limit (length ss))) [
      | inl over ↦ rw (keep_last, over) (All-drop (IsRecent c) (length ss - limit) ss a)
      | inr within ↦ rw (keep_last, within) a
    ]
