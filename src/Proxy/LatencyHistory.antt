-- ===== src/Proxy/LatencyHistory.antt =====
-- internal/proxy/outbound_latency_history.go: the samples kept for one node and latency type. A
-- timestamp is a number of milliseconds, a retention one of nanoseconds; a limit or a least
-- interval of 0 stands for any that is not positive. The lock is left out: a call is one step.
pub mod Bounds
pub mod Collapse
use mcbeproxy.Base.{
  ℕ, ◌+◌, ◌-◌, ◌*◌, ◌/◌, ◌^◌, Bool, true, false, ◌&&◌, List, [], ◌∷◌, ◌++◌, Option, none, some, ltb,
  leb, if◌then◌else◌, length, drop,
}

pub record OutboundLatencySample : Type 0 where
  pub timestamp : ℕ
  pub latency_ms : ℕ
  pub is_ok : Bool

-- `time.UnixMilli(ts).Add(-retention).UnixMilli()`. Below the epoch it is 0 here, and no sample is
-- older than either.
abbrev pub cutoff_of : ℕ → ℕ → ℕ
cutoff_of ts retention = (ts * 10 ^ 6 - retention) / 10 ^ 6

unfoldable pub filtered : ℕ → List OutboundLatencySample → List OutboundLatencySample
filtered cutoff [] = []
filtered cutoff (s ∷ ss) =
    let rest = filtered cutoff ss in if ltb s.timestamp cutoff then rest else s ∷ rest

-- The last sample, and the list with another in its place.
unfoldable pub last_of : List OutboundLatencySample → Option OutboundLatencySample
last_of [] = none
last_of (s ∷ []) = some s
last_of (s ∷ s' ∷ ss) = last_of (s' ∷ ss)

unfoldable pub replace_last :
    OutboundLatencySample → List OutboundLatencySample → List OutboundLatencySample
replace_last sample [] = []
replace_last sample (s ∷ []) = sample ∷ []
replace_last sample (s ∷ s' ∷ ss) = s ∷ replace_last sample (s' ∷ ss)

-- `len(filtered) > 0 && minIntervalMs > 0 && sample.Timestamp-last.Timestamp < minIntervalMs`
abbrev pub is_close : ℕ → OutboundLatencySample → List OutboundLatencySample → Bool
is_close min_interval sample ss = elim (last_of ss) [
  | none ↦ false
  | some l ↦ ltb 0 min_interval && ltb sample.timestamp (l.timestamp + min_interval)
]

-- The last `limit` samples.
abbrev pub keep_last : ℕ → List OutboundLatencySample → List OutboundLatencySample
keep_last limit ss =
    if ltb 0 limit && ltb limit (length ss) then drop (length ss - limit) ss else ss

-- The method `append`.
unfoldable pub append_sample :
    ℕ → ℕ → ℕ → List OutboundLatencySample → OutboundLatencySample → List OutboundLatencySample
append_sample retention min_interval limit samples sample =
    let kept = filtered (cutoff_of sample.timestamp retention) samples in
    if is_close min_interval sample kept
    then replace_last sample kept
    else keep_last limit (kept ++ (sample ∷ []))

-- The method `compact`: the samples left, and whether there are none.
unfoldable pub compact : ℕ → List OutboundLatencySample → List OutboundLatencySample × Bool
compact cutoff samples = elim (filtered cutoff samples) [
  | [] ↦ ([], true)
  | s ∷ ss ↦ (s ∷ ss, false)
]

-- coalesceLatencyHistoryMinIntervalMs.
unfoldable pub coalesce_min_interval : ℕ → ℕ → ℕ
coalesce_min_interval default' override =
    if leb override 0
    then default'
    else (if leb default' 0
        then override
        else (if ltb override default' then override else default'))
