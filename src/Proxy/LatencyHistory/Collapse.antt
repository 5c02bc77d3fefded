-- ===== src/Proxy/LatencyHistory/Collapse.antt =====
-- The latency history of a node that is measured more often than the least interval.
use mcbeproxy.Base.{ℕ, ◌+◌, ◌≤◌, ◌<◌, ◌≡◌, refl, ap, ◌∙◌, List, [], ◌∷◌, le→ltb, lt→ltb}
use mcbeproxy.Proxy.LatencyHistory.{
  OutboundLatencySample, cutoff_of, filtered, last_of, replace_last, append_sample,
}

-- The history after one sample after another.
abbrev pub append_all :
    ℕ → ℕ → ℕ → List OutboundLatencySample → List OutboundLatencySample → List OutboundLatencySample
append_all retention min_interval limit samples [] = samples
append_all retention min_interval limit samples (s ∷ ss) =
    append_all retention min_interval limit (append_sample retention min_interval limit samples s)
      ss

-- Each sample comes less than the interval, and no more than the retention, after the one before.
abbrev pub IsFrequent : ℕ → ℕ → OutboundLatencySample → List OutboundLatencySample → Type 0
IsFrequent retention min_interval s [] = Unit
IsFrequent retention min_interval s (s' ∷ ss) =
    (s'.timestamp < s.timestamp + min_interval)
    × (cutoff_of s'.timestamp retention ≤ s.timestamp)
    × IsFrequent retention min_interval s' ss

abbrev pub newest : OutboundLatencySample → List OutboundLatencySample → OutboundLatencySample
newest s [] = s
newest s (s' ∷ ss) = newest s' ss

append_sample-single :
    (retention min_interval limit : ℕ) (s s' : OutboundLatencySample)
    → 0 < min_interval
    → s'.timestamp < s.timestamp + min_interval
    → cutoff_of s'.timestamp retention ≤ s.timestamp
    → append_sample retention min_interval limit (s ∷ []) s' ≡ s' ∷ []
unfolding append_sample filtered last_of replace_last
append_sample-single retention min_interval limit s s' on near fresh = rw (
  append_sample,
  filtered,
  le→ltb s.timestamp (cutoff_of s'.timestamp retention) fresh,
  lt→ltb 0 min_interval on,
  lt→ltb s'.timestamp (s.timestamp + min_interval) near,
)

-- A node that is measured at intervals shorter than the least interval, and no longer than the
-- retention, never has more than one sample: each measurement takes the place of the one before.
pub append_all-collapses :
    (retention min_interval limit : ℕ) (s : OutboundLatencySample) (ss : List OutboundLatencySample)
    → 0 < min_interval
    → IsFrequent retention min_interval s ss
    → append_all retention min_interval limit (s ∷ []) ss ≡ newest s ss ∷ []
append_all-collapses retention min_interval limit s [] on h = refl
append_all-collapses retention min_interval limit s (s' ∷ ss) on h =
    ap (λ m. append_all retention min_interval limit m ss)
      (append_sample-single retention min_interval limit s s' on h.0 h.1)
    ∙ append_all-collapses retention min_interval limit s' ss on h.2
