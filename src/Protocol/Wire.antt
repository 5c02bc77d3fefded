-- ===== src/Protocol/Wire.antt =====
-- What protocol.go and raknet.go share: packet ids and errors (protocol.go lines 17-61), Go's
-- (value, error) pairs with the run-time panic of an index or slice out of range, and the
-- byte orders of encoding/binary. A []byte is a list of numbers below 256.
pub mod Laws
pub mod Panics
pub mod Success
use mcbeproxy.Base.{
  ℕ, zero, suc, ◌+◌, ◌-◌, ◌*◌, ◌/◌, ◌%◌, ◌^◌, ◌<◌, Bool, true, false, ◌&&◌, List, [], ◌∷◌, ◌++◌,
  none, some, leb, ◌==◌, if◌then◌else◌, length, get_elem?, take, drop,
}

-- The error values of the package.
pub data Error : Type 0 where
  invalid_packet packet_too_short invalid_magic not_login_packet not_transfer_packet : Error
  fragment_missing invalid_fragment : Error

-- A Go call that returns (value, nil), (zero, err), or panics.
pub data Result {ℓ} (A : Type ℓ) : Type ℓ where
  ok : A → Result A
  err : Error → Result A
  panic : Result A

-- A call whose result the next one takes; an error or a panic ends the chain.
infixl 5 ◌>>=◌ ◌>>◌
abbrev pub ◌>>=◌ {ℓ κ} : {A : Type ℓ} {B : Type κ} → Result A → (A → Result B) → Result B
panic >>= next = panic
err x >>= next = err x
ok value >>= next = next value

-- `if !cond { return nil, e }`
abbrev pub guard : Bool → Error → Result (Unit {0})
guard false x = err x
guard true x = ok tt

abbrev pub ◌>>◌ {ℓ} : {B : Type ℓ} → Result (Unit {0}) → Result B → Result B
check >> next = check >>= λ _. next

abbrev pub IsByte : ℕ → Type 0
IsByte b = b < 256

-- data[i]
unfoldable pub at : List ℕ → ℕ → Result ℕ
at data' i = elim (get_elem? data' i) [ none ↦ panic | some b ↦ ok b ]

-- data[lo:hi], with the bound of `len(data)` (Go's is the capacity, which is no smaller).
unfoldable pub slice : List ℕ → ℕ → ℕ → Result (List ℕ)
slice data' lo hi =
    if leb lo hi && leb hi (length data') then ok (take (hi - lo) (drop lo data')) else panic

-- binary.BigEndian.Uint16, Uint32 and Uint64 on a slice of 2, 4 or 8 bytes.
unfoldable pub be_uint : List ℕ → ℕ
be_uint [] = 0
be_uint (b ∷ bs) = b * 256 ^ length bs + be_uint bs

-- binary.Write of a k-byte integer, big endian: the bit pattern of the value is `v`.
unfoldable pub be_bytes : ℕ → ℕ → List ℕ
be_bytes zero v = []
be_bytes (suc k) v = (v / 256 ^ k % 256) ∷ be_bytes k v

-- binary.LittleEndian.
unfoldable pub le_uint : List ℕ → ℕ
le_uint [] = 0
le_uint (b ∷ bs) = b + 256 * le_uint bs

unfoldable pub le_bytes : ℕ → ℕ → List ℕ
le_bytes zero v = []
le_bytes (suc k) v = (v % 256) ∷ le_bytes k (v / 256)

-- The packet ids.
abbrev pub id_unconnected_ping : ℕ
id_unconnected_ping = 0x01

abbrev pub id_unconnected_ping_open_conn : ℕ
id_unconnected_ping_open_conn = 0x02

abbrev pub id_unconnected_pong : ℕ
id_unconnected_pong = 0x1c

abbrev pub id_open_connection_request1 : ℕ
id_open_connection_request1 = 0x05

abbrev pub id_open_connection_reply1 : ℕ
id_open_connection_reply1 = 0x06

abbrev pub id_open_connection_request2 : ℕ
id_open_connection_request2 = 0x07

abbrev pub id_open_connection_reply2 : ℕ
id_open_connection_reply2 = 0x08

abbrev pub id_connection_request : ℕ
id_connection_request = 0x09

abbrev pub id_connection_request_accept : ℕ
id_connection_request_accept = 0x10

abbrev pub id_new_incoming_connection : ℕ
id_new_incoming_connection = 0x13

abbrev pub id_disconnect_notification : ℕ
id_disconnect_notification = 0x15

abbrev pub id_login : ℕ
id_login = 0x01

abbrev pub id_play_status : ℕ
id_play_status = 0x02

abbrev pub id_disconnect : ℕ
id_disconnect = 0x05

abbrev pub id_transfer : ℕ
id_transfer = 0x55

-- The magic bytes of the handshake.
unfoldable pub raknet_magic : List ℕ
raknet_magic =
    0x00 ∷ 0xff ∷ 0xff ∷ 0x00 ∷ 0xfe ∷ 0xfe ∷ 0xfe ∷ 0xfe ∷ 0xfd ∷ 0xfd ∷ 0xfd ∷ 0xfd ∷ 0x12 ∷ 0x34
    ∷ 0x56 ∷ 0x78 ∷ []

-- bytes.Equal.
unfoldable pub bytes_equal : List ℕ → List ℕ → Bool
bytes_equal [] [] = true
bytes_equal [] (y ∷ ys) = false
bytes_equal (x ∷ xs) [] = false
bytes_equal (x ∷ xs) (y ∷ ys) = x == y && bytes_equal xs ys
