-- ===== src/Protocol/Packets/Version.antt =====
-- DetectProtocolVersion: it never panics, and finds the version of a login packet in its frame.
use mcbeproxy.Base.{
  ℕ, ◌+◌, ◌*◌, ◌^◌, ◌≤◌, ◌<◌, ◌≡◌, refl, ap, ◌∙◌, true, List, [], ◌∷◌, ◌++◌, arith, tests, ltb, leb,
  lt→ltb, le→leb, ◌==◌, ◌&&◌, length, length-append, take_all,
}
use mcbeproxy.Protocol.Wire.{ok, err, panic, at, slice, be_uint, be_bytes, id_login}
use mcbeproxy.Protocol.Wire.Laws.{slice-ok, slice_middle, length-be_bytes, be_uint-be_bytes}
use mcbeproxy.Protocol.Wire.Panics.{
  NoPanic, >>=-NoPanic, guard-NoPanic, if-NoPanic, at-NoPanic, slice-NoPanic,
}
use mcbeproxy.Protocol.Frame.{is_framed_packet, extract_inner_packet, payload_offset}
use mcbeproxy.Protocol.Frame.Safety.{extract_inner_packet-NoPanic}
use mcbeproxy.Protocol.Frame.Layout.{frame, extract_inner_packet_exact}
use mcbeproxy.Protocol.Packets.{
  detect_protocol_version, unframe, extract_version_from_login, extract_version_from_game_packet,
}

extract_version_from_login-NoPanic : (d : List ℕ) → NoPanic (extract_version_from_login d)
unfolding extract_version_from_login
extract_version_from_login-NoPanic d = guard-NoPanic (leb 5 (length d)) _ _ λ h.
    >>=-NoPanic (slice d 1 5) _ (slice-NoPanic d 1 5 (omega arith) (omega tests))
      λ b _ (e : ok _ ≡ panic). cc

extract_version_from_game_packet-NoPanic :
    (d : List ℕ) → NoPanic (extract_version_from_game_packet d)
unfolding extract_version_from_game_packet
extract_version_from_game_packet-NoPanic d = guard-NoPanic (leb 5 (length d)) _ _ λ h.
    >>=-NoPanic (at d 0) _ (at-NoPanic d 0 (omega tests))
      λ id _. guard-NoPanic (id == id_login) _ _ λ _. extract_version_from_login-NoPanic d

unframe-NoPanic : (d : List ℕ) (id : ℕ) → NoPanic (unframe d id)
unfolding unframe
unframe-NoPanic d id =
    if-NoPanic (is_framed_packet id) _ _
      (λ _. >>=-NoPanic (extract_inner_packet d) _ (extract_inner_packet-NoPanic d) λ inner _.
        if-NoPanic (ltb 0 (length inner)) _ _
          (λ k.
            >>=-NoPanic (at inner 0) _ (at-NoPanic inner 0 (omega tests))
              λ b _ (e : ok _ ≡ panic). cc)
          λ _ (e : ok _ ≡ panic). cc)
      λ _ (e : ok _ ≡ panic). cc

-- On any input DetectProtocolVersion returns a version or an error, and does not panic.
pub detect_protocol_version-NoPanic : (d : List ℕ) → NoPanic (detect_protocol_version d)
unfolding detect_protocol_version
detect_protocol_version-NoPanic d = guard-NoPanic (leb 1 (length d)) _ _ λ h.
    >>=-NoPanic (at d 0) _ (at-NoPanic d 0 (omega tests)) λ first _.
      >>=-NoPanic (unframe d first) _ (unframe-NoPanic d first) λ (body, id) _.
        if-NoPanic (id == 0xfe && ltb 1 (length body)) _ _
          (λ k.
            >>=-NoPanic (slice body 1 (length body)) _
              (slice-NoPanic body 1 (length body) (ground arith) (omega arith))
              λ game _. extract_version_from_game_packet-NoPanic game)
          λ _.
            if-NoPanic (id == id_login) _ _ (λ _. extract_version_from_login-NoPanic body)
              λ _ (e : err _ ≡ panic). cc

-- A login packet with its protocol version, as far as it is read.
abbrev login : ℕ → List ℕ → List ℕ
login version rest = id_login ∷ (be_bytes 4 version ++ rest)

login_version :
    (version : ℕ) (rest : List ℕ)
    → version < 2 ^ 32
    → extract_version_from_login (login version rest) ≡ ok version
unfolding extract_version_from_login
login_version version rest fits =
    rw
      (
        le→leb 5 (length (login version rest))
            (omega (arith, length-append (be_bytes 4 version) rest, length-be_bytes 4 version)),
        slice_middle (id_login ∷ []) (be_bytes 4 version) rest 1 5 refl
            (omega (arith, length-be_bytes 4 version)),
        be_uint-be_bytes 4 version,
      )
      (ap ok (omega arith))

length-login : (version : ℕ) (rest : List ℕ) → length (login version rest) ≡ 5 + length rest
length-login version rest =
    omega (arith, length-append (be_bytes 4 version) rest, length-be_bytes 4 version)

game_version :
    (version : ℕ) (rest : List ℕ)
    → version < 2 ^ 32
    → extract_version_from_game_packet (login version rest) ≡ ok version
unfolding extract_version_from_game_packet at
game_version version rest fits =
    let long = le→leb 5 (length (login version rest)) (omega (arith, length-login version rest)) in
    rw long (rw long at (login_version version rest fits))

unwrapped :
    (version : ℕ) (rest : List ℕ)
    → slice (0xfe ∷ login version rest) 1 (length (0xfe ∷ login version rest))
      ≡ ok (login version rest)
unwrapped version rest =
    slice-ok (0xfe ∷ login version rest) 1 (length (0xfe ∷ login version rest)) (omega arith)
      (omega arith)
    ∙ ap ok (take_all (login version rest) _ (omega arith))

-- A login packet with the game packet wrapper, in a frame whose header is as long as its flags
-- announce and whose bit length is that of the packet, gives its 32-bit version, whatever up to
-- 8000 bytes stand behind the version and whatever behind the payload.
pub detect_protocol_version-frame :
    (t s0 s1 s2 flags hi lo version : ℕ) (header rest behind : List ℕ)
    → version < 2 ^ 32
    → is_framed_packet t ≡ true
    → 7 + length header ≡ payload_offset flags
    → length rest ≤ 8000
    → be_uint (hi ∷ lo ∷ []) ≡ 8 * (6 + length rest)
    → detect_protocol_version
        (frame t s0 s1 s2 flags hi lo (header ++ ((0xfe ∷ login version rest) ++ behind)))
      ≡ ok version
unfolding detect_protocol_version at
detect_protocol_version-frame t s0 s1 s2 flags hi lo version header rest behind fits framed h small
      bits =
    rw
      (
        le→leb 1 (length whole) (omega arith),
        framed,
        extract_inner_packet_exact t s0 s1 s2 flags hi lo header (0xfe ∷ login version rest) behind
            h (omega arith) (omega (arith, length-login version rest))
            (omega (arith, bits, length-login version rest)),
        lt→ltb 0 (length (0xfe ∷ login version rest)) (omega arith),
        lt→ltb 1 (length (0xfe ∷ login version rest)) (omega arith),
        unwrapped version rest,
      )
      (game_version version rest fits)
  where
    whole : List ℕ
    whole = frame t s0 s1 s2 flags hi lo (header ++ ((0xfe ∷ login version rest) ++ behind))
