-- ===== src/Protocol/RakNet/Replies.antt =====
-- The replies of the handshake: no input makes a handler panic, and a well-formed request is
-- answered with its own timestamp or size.
use mcbeproxy.Base.{
  ℕ, ◌+◌, ◌%◌, ◌^◌, ◌≤◌, ◌≡◌, refl, subst, ◌⊎◌, true, ◌||◌, List, [], ◌∷◌, ◌++◌, some, arith, tests,
  leb, le→leb, ◌==◌, length, length-append, All,
}
use mcbeproxy.Protocol.Wire.{
  ok, panic, at, slice, be_uint, be_bytes, bytes_equal, raknet_magic, IsByte, id_unconnected_ping,
  id_unconnected_pong, id_unconnected_ping_open_conn, id_open_connection_request1,
  id_open_connection_request2, id_connection_request, id_open_connection_reply1,
}
use mcbeproxy.Protocol.Wire.Laws.{slice_middle, be_bytes-be_uint}
use mcbeproxy.Protocol.Wire.Panics.{
  NoPanic, >>=-NoPanic, guard-NoPanic, if-NoPanic, at-NoPanic, slice-NoPanic,
}
use mcbeproxy.Protocol.RakNet.{
  RakNetHandler, handle_unconnected_ping, handle_connection_request,
  handle_open_connection_request1, handle_open_connection_request2,
  handle_connection_request_packet, build_unconnected_pong, build_open_connection_reply1,
}

-- On a packet of any length and content HandleUnconnectedPing answers or returns an error, and
-- does not panic.
pub handle_unconnected_ping-NoPanic :
    (rh : RakNetHandler) (d : List ℕ) → NoPanic (handle_unconnected_ping rh d)
unfolding handle_unconnected_ping
handle_unconnected_ping-NoPanic rh d = guard-NoPanic (leb 33 (length d)) _ _ λ h.
    >>=-NoPanic (at d 0) _ (at-NoPanic d 0 (omega tests)) λ id _.
      guard-NoPanic (id == id_unconnected_ping || id == id_unconnected_ping_open_conn) _ _ λ _.
        >>=-NoPanic (slice d 9 25) _ (slice-NoPanic d 9 25 (omega arith) (omega tests)) λ magic _.
          guard-NoPanic (bytes_equal magic raknet_magic) _ _ λ _.
            >>=-NoPanic (slice d 1 9) _ (slice-NoPanic d 1 9 (omega arith) (omega tests))
              λ b _ (e : ok _ ≡ panic). cc

request1-NoPanic :
    (rh : RakNetHandler) (d : List ℕ) → NoPanic (handle_open_connection_request1 rh d)
unfolding handle_open_connection_request1
request1-NoPanic rh d = guard-NoPanic (leb 18 (length d)) _ _ λ h.
    >>=-NoPanic (slice d 1 17) _ (slice-NoPanic d 1 17 (omega arith) (omega tests))
      λ magic _. guard-NoPanic (bytes_equal magic raknet_magic) _ _ λ _ (e : ok _ ≡ panic). cc

request2-NoPanic :
    (rh : RakNetHandler) (d : List ℕ) → NoPanic (handle_open_connection_request2 rh d)
unfolding handle_open_connection_request2
request2-NoPanic rh d = guard-NoPanic (leb 34 (length d)) _ _ λ h.
    >>=-NoPanic (slice d 1 17) _ (slice-NoPanic d 1 17 (omega arith) (omega tests)) λ magic _.
      guard-NoPanic (bytes_equal magic raknet_magic) _ _ λ _.
        >>=-NoPanic (slice d 24 26) _ (slice-NoPanic d 24 26 (omega arith) (omega tests)) λ mtu _.
          >>=-NoPanic (slice d 26 34) _ (slice-NoPanic d 26 34 (omega arith) (omega tests))
            λ b _ (e : ok _ ≡ panic). cc

request-NoPanic :
    (rh : RakNetHandler) (d : List ℕ) (now : ℕ)
    → NoPanic (handle_connection_request_packet rh d now)
unfolding handle_connection_request_packet
request-NoPanic rh d now = guard-NoPanic (leb 18 (length d)) _ _ λ h.
    >>=-NoPanic (slice d 1 9) _ (slice-NoPanic d 1 9 (omega arith) (omega tests)) λ guid _.
      >>=-NoPanic (slice d 9 17) _ (slice-NoPanic d 9 17 (omega arith) (omega tests))
        λ b _ (e : ok _ ≡ panic). cc

-- No packet of any length and content makes HandleConnectionRequest panic.
pub handle_connection_request-NoPanic :
    (rh : RakNetHandler) (d : List ℕ) (now : ℕ) → NoPanic (handle_connection_request rh d now)
unfolding handle_connection_request
handle_connection_request-NoPanic rh d now = guard-NoPanic (leb 1 (length d)) _ _ λ h.
    >>=-NoPanic (at d 0) _ (at-NoPanic d 0 (omega tests)) λ id _.
      if-NoPanic (id == id_open_connection_request1) _ _
        (λ _.
          >>=-NoPanic (handle_open_connection_request1 rh d) _ (request1-NoPanic rh d)
            λ r _ (e : ok _ ≡ panic). cc)
        λ _.
          if-NoPanic (id == id_open_connection_request2) _ _
            (λ _.
              >>=-NoPanic (handle_open_connection_request2 rh d) _ (request2-NoPanic rh d)
                λ r _ (e : ok _ ≡ panic). cc)
            λ _.
              if-NoPanic (id == id_connection_request) _ _
                (λ _.
                  >>=-NoPanic (handle_connection_request_packet rh d now) _
                    (request-NoPanic rh d now) λ r _ (e : ok _ ≡ panic). cc)
                λ _ (e : ok _ ≡ panic). cc

magic-equal : bytes_equal raknet_magic raknet_magic ≡ true
unfolding bytes_equal raknet_magic
magic-equal = refl

length-magic : length raknet_magic ≡ 16
unfolding raknet_magic
length-magic = refl

-- A ping or open-connections ping of eight timestamp bytes, the magic and eight bytes of GUID or
-- more is answered with a pong that carries the ping's own eight timestamp bytes,
-- the handler's GUID, the magic, and the length and the bytes of the server id.
pub handle_unconnected_ping_echo :
    (rh : RakNetHandler) (id : ℕ) (stamp guid : List ℕ)
    → (id ≡ id_unconnected_ping) ⊎ (id ≡ id_unconnected_ping_open_conn)
    → length stamp ≡ 8
    → All IsByte stamp
    → 8 ≤ length guid
    → handle_unconnected_ping rh (id ∷ (stamp ++ (raknet_magic ++ guid)))
      ≡ ok (
          id_unconnected_pong
          ∷ (stamp
              ++ (be_bytes 8 rh.server_guid
                  ++ (raknet_magic ++ (be_bytes 2 (length rh.server_id) ++ rh.server_id)))))
unfolding handle_unconnected_ping build_unconnected_pong at
handle_unconnected_ping_echo rh id stamp guid known eight bytes more = rw (
  le→leb 33 (length whole) (
      omega (
        arith,
        length-append stamp (raknet_magic ++ guid),
        length-append raknet_magic guid,
        length-magic,
      )),
  id_known,
  magic_there,
  magic-equal,
  slice_middle (id ∷ []) stamp (raknet_magic ++ guid) 1 9 refl (omega arith),
  echo,
)
  where
    whole : List ℕ
    whole = id ∷ (stamp ++ (raknet_magic ++ guid))

    echo : be_bytes 8 (be_uint stamp) ≡ stamp
    echo = subst (λ n. be_bytes n (be_uint stamp) ≡ stamp) eight (be_bytes-be_uint stamp bytes)

    id_known : (id == id_unconnected_ping || id == id_unconnected_ping_open_conn) ≡ true
    id_known = ground arith

    magic_there : slice whole 9 25 ≡ ok raknet_magic
    magic_there =
        slice_middle (id ∷ stamp) raknet_magic guid 9 25 (omega arith) (omega (arith, length-magic))

-- An open connection request 1 with at most 65489 bytes of padding is answered with a reply 1
-- whose MTU is the request's own size and 28 bytes of headers.
pub handle_open_connection_request1_mtu :
    (rh : RakNetHandler) (version now : ℕ) (padding : List ℕ)
    → length padding ≤ 65489
    → handle_connection_request rh
        (id_open_connection_request1 ∷ (raknet_magic ++ (version ∷ padding)))
        now
      ≡ ok (
          some (
            id_open_connection_reply1
            ∷ (raknet_magic
                ++ (be_bytes 8 rh.server_guid ++ (0x00 ∷ be_bytes 2 (18 + length padding + 28))))))
unfolding handle_connection_request handle_open_connection_request1 build_open_connection_reply1 at
handle_open_connection_request1_mtu rh version now padding fits = rw (
  le→leb 1 (length whole) (omega arith),
  le→leb 18 (length whole) (omega (arith, size)),
  slice_middle (id_open_connection_request1 ∷ []) raknet_magic (version ∷ padding) 1 17 refl
      (omega (arith, length-magic)),
  magic-equal,
  mtu,
)
  where
    whole : List ℕ
    whole = id_open_connection_request1 ∷ (raknet_magic ++ (version ∷ padding))

    size : length whole ≡ 18 + length padding
    size = omega (arith, length-append raknet_magic (version ∷ padding), length-magic)

    mtu : (length whole + 28) % 2 ^ 16 ≡ 18 + length padding + 28
    mtu = omega (arith, size)
