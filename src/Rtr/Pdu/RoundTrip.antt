-- ===== src/Rtr/Pdu/RoundTrip.antt =====
-- What the readers of rtr/pdu.c make of the bytes that rtr/pdu_serializer.c writes.
use mathlib.Core.List.{append_assoc}
use fort_validator.Base.{
  length-append, ◌==◌, if◌then◌else◌, ℕ, suc, ◌^◌, ◌<◌, ◌≡◌, refl, ap, subst, List, [], ◌∷◌, ◌++◌,
  arith, length, All,
}
use fort_validator.Base.Results.{ok, ◌>>=◌}
use fort_validator.Rtr.Pdu.Bytes.{
  write_int8, write_int16, write_int32, write_in_addr, write_in6_addr, read_int8, read_int16,
  read_int32, read_in_addr, read_in6_addr,
}
use fort_validator.Rtr.Pdu.{
  PduHeader, SerialPdu, PrefixPdu, EndOfDataPdu, RouterKeyPdu, serialize_cache_response_pdu,
  serialize_cache_reset_pdu, serialize_end_of_data_pdu, serialize_router_key_pdu,
  serialize_pdu_header, serialize_serial_notify_pdu, serialize_ipv4_prefix_pdu,
  serialize_ipv6_prefix_pdu, pdu_header_from_reader, serial_query_from_stream,
  ipv4_prefix_from_stream, ipv6_prefix_from_stream,
}

-- The fields fit their types.
abbrev pub FitsHeader : PduHeader → Type 0
FitsHeader h =
    (h.protocol_version < 2 ^ 8) × (h.pdu_type < 2 ^ 8) × (h.m < 2 ^ 16) × (h.length < 2 ^ 32)

read-write_int8 :
    (v : ℕ) (rest : List ℕ) → v < 2 ^ 8 → read_int8 (write_int8 v ++ rest) ≡ ok (v, rest)
unfolding read_int8 write_int8
read-write_int8 v rest h = ground arith

read-write_int16 :
    (v : ℕ) (rest : List ℕ) → v < 2 ^ 16 → read_int16 (write_int16 v ++ rest) ≡ ok (v, rest)
unfolding read_int16 write_int16
read-write_int16 v rest h = ground arith

read-write_int32 :
    (v : ℕ) (rest : List ℕ) → v < 2 ^ 32 → read_int32 (write_int32 v ++ rest) ≡ ok (v, rest)
unfolding read_int32 write_int32
read-write_int32 v rest h = ground arith

-- The reader of a header returns the header that was serialized, whose fields fit their types,
-- and what follows it.
pub pdu_header_from_reader-serialize :
    (h : PduHeader) (rest : List ℕ)
    → FitsHeader h
    → pdu_header_from_reader (serialize_pdu_header h h.m ++ rest) ≡ ok (h, rest)
unfolding pdu_header_from_reader serialize_pdu_header read_int8 read_int16 read_int32 write_int8
    write_int16 write_int32
pdu_header_from_reader-serialize h rest f = ground (arith, f.0, f.1, f.2, f.3)

-- A Serial Query has the format of a Serial Notify: the readers of the header and of the query
-- return the unit that was serialized, whose fields fit their types.
pub serial_query_from_stream-serialize :
    (pdu : SerialPdu) (rest : List ℕ)
    → FitsHeader pdu.header
    → pdu.serial_number < 2 ^ 32
    → (pdu_header_from_reader (serialize_serial_notify_pdu pdu ++ rest) >>= λ (h, body).
        serial_query_from_stream h body)
      ≡ ok (pdu, rest)
unfolding serialize_serial_notify_pdu serial_query_from_stream pdu_header_from_reader
    serialize_pdu_header read_int8 read_int16 read_int32 write_int8 write_int16 write_int32
serial_query_from_stream-serialize pdu rest f s = ground (arith, f.0, f.1, f.2, f.3)

-- An IPv4 Prefix unit whose fields fit their types comes back from the readers with its address
-- put through ntohl() once more.
pub ipv4_prefix_from_stream-serialize :
    (ntohl : ℕ → ℕ) (pdu : PrefixPdu ℕ) (rest : List ℕ)
    → FitsHeader pdu.header
    → (pdu.flags < 2 ^ 8)
      × (pdu.prefix_length < 2 ^ 8)
      × (pdu.max_length < 2 ^ 8)
      × (pdu.zero < 2 ^ 8)
    → pdu.address < 2 ^ 32
    → pdu.asn < 2 ^ 32
    → (pdu_header_from_reader (serialize_ipv4_prefix_pdu pdu ++ rest) >>= λ (h, body).
        ipv4_prefix_from_stream ntohl h body)
      ≡ ok (record pdu { address = ntohl pdu.address }, rest)
unfolding serialize_ipv4_prefix_pdu ipv4_prefix_from_stream pdu_header_from_reader
    serialize_pdu_header read_int8 read_int16 read_int32 read_in_addr write_in_addr write_int8
    write_int16 write_int32
ipv4_prefix_from_stream-serialize ntohl pdu rest f g a s =
    ground (arith, f.0, f.1, f.2, f.3, g.0, g.1, g.2, g.3)

read-write_in6_addr :
    (bytes rest : List ℕ)
    → All (λ b. b < 2 ^ 8) bytes
    → read_in6_addr (length bytes) (write_in6_addr bytes ++ rest) ≡ ok (bytes, rest)
unfolding read_in6_addr read_int8 write_in6_addr
read-write_in6_addr [] rest h = refl
read-write_in6_addr (b ∷ bytes) rest h = ground (arith, h.0, read-write_in6_addr bytes rest h.1)

-- The readers of the header and of an IPv6 Prefix unit return the unit that was serialized, whose
-- fields fit their types.
pub ipv6_prefix_from_stream-serialize :
    (pdu : PrefixPdu (List ℕ)) (rest : List ℕ)
    → FitsHeader pdu.header
    → (pdu.flags < 2 ^ 8)
      × (pdu.prefix_length < 2 ^ 8)
      × (pdu.max_length < 2 ^ 8)
      × (pdu.zero < 2 ^ 8)
    → length pdu.address ≡ 16
    → All (λ b. b < 2 ^ 8) pdu.address
    → pdu.asn < 2 ^ 32
    → (pdu_header_from_reader (serialize_ipv6_prefix_pdu pdu ++ rest) >>= λ (h, body).
        ipv6_prefix_from_stream h body)
      ≡ ok (pdu, rest)
unfolding serialize_ipv6_prefix_pdu ipv6_prefix_from_stream pdu_header_from_reader
    serialize_pdu_header read_int8 read_int16 read_int32 write_int8 write_int16 write_int32
ipv6_prefix_from_stream-serialize pdu rest f g n a s =
    let r : read_in6_addr 16 (write_in6_addr pdu.address ++ (write_int32 pdu.asn ++ rest))
        ≡ ok (pdu.address, write_int32 pdu.asn ++ rest) =
      subst
        (λ k.
          read_in6_addr k (write_in6_addr pdu.address ++ (write_int32 pdu.asn ++ rest))
          ≡ ok (pdu.address, write_int32 pdu.asn ++ rest))
        n (read-write_in6_addr pdu.address (write_int32 pdu.asn ++ rest) a) in
    let e = append_assoc (write_in6_addr pdu.address) (write_int32 pdu.asn) rest in
    ground (arith, f.0, f.1, f.2, f.3, g.0, g.1, g.2, g.3, r, e)

length-write_in6_addr : (bytes : List ℕ) → length (write_in6_addr bytes) ≡ length bytes
unfolding write_in6_addr
length-write_in6_addr [] = refl
length-write_in6_addr (b ∷ bytes) = ap suc (length-write_in6_addr bytes)

-- The sizes of the units are the constants of pdu.h: 8 for Cache Response and Cache Reset, 12 for
-- Serial Notify, 20 for IPv4 Prefix, 32 for IPv6 Prefix, 12 or 24 for End of Data, 123 for Router
-- Key in version 1, which version 0 does not have.
pub serialize-length :
    (header : PduHeader) (notify : SerialPdu) (prefix4 : PrefixPdu ℕ) (prefix6 : PrefixPdu (List ℕ))
    (end : EndOfDataPdu) (key : RouterKeyPdu)
    → length prefix6.address ≡ 16
    → length key.ski ≡ 20
    → length key.spki ≡ 91
    → (length (serialize_cache_response_pdu header) ≡ 8)
      × (length (serialize_cache_reset_pdu header) ≡ 8)
      × (length (serialize_serial_notify_pdu notify) ≡ 12)
      × (length (serialize_ipv4_prefix_pdu prefix4) ≡ 20)
      × (length (serialize_ipv6_prefix_pdu prefix6) ≡ 32)
      × (length (serialize_end_of_data_pdu end)
          ≡ (if end.header.protocol_version == 1 then 24 else 12))
      × (length (serialize_router_key_pdu key)
          ≡ (if key.header.protocol_version == 0 then 0 else 123))
unfolding serialize_cache_response_pdu serialize_cache_reset_pdu serialize_serial_notify_pdu
    serialize_ipv4_prefix_pdu serialize_ipv6_prefix_pdu serialize_end_of_data_pdu
    serialize_router_key_pdu serialize_pdu_header write_int8 write_int16 write_int32 write_in_addr
serialize-length header notify prefix4 prefix6 end key n6 ns np = (
  refl,
  refl,
  refl,
  refl,
  omega (
    arith,
    length-append (write_in6_addr prefix6.address) (write_int32 prefix6.asn),
    length-write_in6_addr prefix6.address,
  ),
  ground arith,
  ground (
    arith,
    length-append (write_in6_addr key.ski) (write_int32 key.asn ++ write_in6_addr key.spki),
    length-write_in6_addr key.ski,
    length-write_in6_addr key.spki,
  ),
)
