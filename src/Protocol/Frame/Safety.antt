-- ===== src/Protocol/Frame/Safety.antt =====
-- The frame parsers never index or slice out of range, on any input.
use mcbeproxy.Base.{ℕ, ◌+◌, ◌≤◌, ◌≡◌, min, not, none, List, arith, tests, ltb, leb, length}
use mcbeproxy.Protocol.Wire.{ok, panic, at, slice, be_uint}
use mcbeproxy.Protocol.Wire.Panics.{
  NoPanic, >>=-NoPanic, guard-NoPanic, if-NoPanic, at-NoPanic, slice-NoPanic,
}
use mcbeproxy.Protocol.Frame.{
  skip_headers, byte_length, payload_offset, reliability_of, has_split_flag, extract_inner_packet,
  parse_fragment, get_packet_reliability, is_framed_packet,
}

pub le-skip_headers : (o r : ℕ) → (o ≤ skip_headers o r) × (skip_headers o r ≤ o + 10)
unfolding skip_headers
le-skip_headers o r = ground arith

-- extractInnerPacket returns an error or a slice, and does not panic.
pub extract_inner_packet-NoPanic : (d : List ℕ) → NoPanic (extract_inner_packet d)
unfolding extract_inner_packet
extract_inner_packet-NoPanic d = guard-NoPanic (leb 4 (length d)) _ _ λ h0.
    guard-NoPanic (ltb 4 (length d)) _ _ λ h1.
      >>=-NoPanic (at d 4) _ (at-NoPanic d 4 (omega tests)) λ flags _.
        guard-NoPanic (leb (5 + 2) (length d)) _ _ λ h2.
          >>=-NoPanic (slice d 5 7) _ (slice-NoPanic d 5 7 (omega arith) (omega tests)) λ bits _.
            guard-NoPanic (ltb (payload_offset flags) (length d)) _ _
              λ h3. slice-NoPanic d _ _ (omega tests) (omega tests)

pub parse_fragment-NoPanic : (d : List ℕ) (now : ℕ) → NoPanic (parse_fragment d now)
unfolding parse_fragment
parse_fragment-NoPanic d now = guard-NoPanic (leb 5 (length d)) _ _ λ h0.
    >>=-NoPanic (at d 0) _ (at-NoPanic d 0 (omega tests)) λ frame_type _.
      guard-NoPanic (is_framed_packet frame_type) _ _ λ _.
        guard-NoPanic (ltb 4 (length d)) _ _ λ h1.
          >>=-NoPanic (at d 4) _ (at-NoPanic d 4 (omega tests)) λ flags _.
            guard-NoPanic (has_split_flag flags) _ _ λ _.
              guard-NoPanic (leb (5 + 2) (length d)) _ _ λ h2.
                >>=-NoPanic (slice d 5 7) _ (slice-NoPanic d 5 7 (omega arith) (omega tests))
                  λ bits _.
                    let o = skip_headers 7 (reliability_of flags) in
                    guard-NoPanic (leb (o + 10) (length d)) _ _ λ h3.
                      >>=-NoPanic (slice d o (o + 4)) _
                        (slice-NoPanic d _ _ (omega arith) (omega tests))
                        λ count _.
                          >>=-NoPanic (slice d (o + 4) (o + 6)) _
                            (slice-NoPanic d _ _ (omega arith) (omega tests))
                            λ id _.
                              >>=-NoPanic (slice d (o + 6) (o + 10)) _
                                (slice-NoPanic d _ _ (omega arith) (omega tests))
                                λ index _.
                                  >>=-NoPanic
                                    (slice d (o + 10)
                                      (min (o + 10 + byte_length (be_uint bits)) (length d)))
                                    _ (slice-NoPanic d _ _ (omega tests) (omega arith))
                                    λ payload _ (e : ok _ ≡ panic). cc

pub get_packet_reliability-NoPanic : (d : List ℕ) → NoPanic (get_packet_reliability d)
unfolding get_packet_reliability
get_packet_reliability-NoPanic d =
    if-NoPanic (ltb (length d) 5) _ _ (λ _ (e : ok none ≡ panic). cc)
      λ h. >>=-NoPanic (at d 0) _ (at-NoPanic d 0 (ground arith)) λ packet_id _.
        if-NoPanic (not (is_framed_packet packet_id)) _ _ (λ _ (e : ok none ≡ panic). cc)
          λ _. >>=-NoPanic (at d 4) _ (at-NoPanic d 4 (ground arith)) λ b _ (e : ok _ ≡ panic). cc
