-- ===== src/Rtr/Pdu.antt =====
-- rtr/pdu.h, rtr/pdu_serializer.c and the readers of rtr/pdu.c: the protocol data units and their
-- bytes. What a serializer writes to its buffer is the list that it returns.
pub mod Bytes
pub mod RoundTrip
use fort_validator.Base.{ℕ, Bool, true, false, List, [], ◌∷◌, ◌++◌, ltb, if◌then◌else◌, ◌==◌, take}
use fort_validator.Base.Results.{Result, ok, err, crit, ◌>>=◌}
use fort_validator.Rtr.Pdu.Bytes.{
  Read, write_int8, write_int16, write_int32, write_in_addr, write_in6_addr, read_int8, read_int16,
  read_int32, read_in_addr, read_in6_addr, disjunction,
}

-- struct pdu_header; the union is `m`.
pub record PduHeader : Type 0 where
  pub protocol_version : ℕ
  pub pdu_type : ℕ
  pub m : ℕ
  pub length : ℕ

-- struct serial_notify_pdu and struct serial_query_pdu
pub record SerialPdu : Type 0 where
  pub header : PduHeader
  pub serial_number : ℕ

-- struct ipv4_prefix_pdu and struct ipv6_prefix_pdu; the address is the number of s_addr in host
-- byte order, or 16 bytes.
pub record PrefixPdu (A : Type 0) : Type 0 where
  pub header : PduHeader
  pub flags : ℕ
  pub prefix_length : ℕ
  pub max_length : ℕ
  pub zero : ℕ
  pub address : A
  pub asn : ℕ

pub record EndOfDataPdu : Type 0 where
  pub header : PduHeader
  pub serial_number : ℕ
  pub refresh_interval : ℕ
  pub retry_interval : ℕ
  pub expire_interval : ℕ

-- `ski` and `spki` are the bytes up to `ski_len` and `spki_len`.
pub record RouterKeyPdu : Type 0 where
  pub header : PduHeader
  pub ski : List ℕ
  pub asn : ℕ
  pub spki : List ℕ

unfoldable pub serialize_pdu_header : PduHeader → ℕ → List ℕ
unfolding write_int8 write_int16 write_int32
serialize_pdu_header header union_value =
    write_int8 header.protocol_version
    ++ (write_int8 header.pdu_type ++ (write_int16 union_value ++ write_int32 header.length))

unfoldable pub serialize_serial_notify_pdu : SerialPdu → List ℕ
unfolding serialize_pdu_header write_int32
serialize_serial_notify_pdu pdu =
    serialize_pdu_header pdu.header pdu.header.m ++ write_int32 pdu.serial_number

unfoldable pub serialize_cache_response_pdu : PduHeader → List ℕ
unfolding serialize_pdu_header
serialize_cache_response_pdu header = serialize_pdu_header header header.m

unfoldable pub serialize_ipv4_prefix_pdu : PrefixPdu ℕ → List ℕ
unfolding serialize_pdu_header write_int8 write_in_addr write_int32
serialize_ipv4_prefix_pdu pdu =
    serialize_pdu_header pdu.header pdu.header.m
    ++ (write_int8 pdu.flags
        ++ (write_int8 pdu.prefix_length
            ++ (write_int8 pdu.max_length
                ++ (write_int8 pdu.zero ++ (write_in_addr pdu.address ++ write_int32 pdu.asn)))))

unfoldable pub serialize_ipv6_prefix_pdu : PrefixPdu (List ℕ) → List ℕ
unfolding serialize_pdu_header write_int8 write_in6_addr write_int32
serialize_ipv6_prefix_pdu pdu =
    serialize_pdu_header pdu.header pdu.header.m
    ++ (write_int8 pdu.flags
        ++ (write_int8 pdu.prefix_length
            ++ (write_int8 pdu.max_length
                ++ (write_int8 pdu.zero ++ (write_in6_addr pdu.address ++ write_int32 pdu.asn)))))

unfoldable pub serialize_end_of_data_pdu : EndOfDataPdu → List ℕ
unfolding serialize_pdu_header write_int32
serialize_end_of_data_pdu pdu =
    serialize_pdu_header pdu.header pdu.header.m
    ++ (write_int32 pdu.serial_number
        ++ (if pdu.header.protocol_version == 1
            then write_int32 pdu.refresh_interval
              ++ (write_int32 pdu.retry_interval ++ write_int32 pdu.expire_interval)
            else []))

unfoldable pub serialize_cache_reset_pdu : PduHeader → List ℕ
unfolding serialize_pdu_header
serialize_cache_reset_pdu header = serialize_pdu_header header header.m

-- The two loops over the bytes, as lists.
unfoldable pub serialize_router_key_pdu : RouterKeyPdu → List ℕ
unfolding serialize_pdu_header write_in6_addr write_int32
serialize_router_key_pdu pdu =
    if pdu.header.protocol_version == 0
    then []
    else serialize_pdu_header pdu.header pdu.header.m
      ++ (write_in6_addr pdu.ski ++ (write_int32 pdu.asn ++ write_in6_addr pdu.spki))

unfoldable pub pdu_header_from_reader : Read PduHeader
unfolding read_int8 read_int16 read_int32
pdu_header_from_reader buf = disjunction do
  (version, b1) ← read_int8 buf
  (type, b2) ← read_int8 b1
  (m, b3) ← read_int16 b2
  (length, b4) ← read_int32 b3
  ok (record { protocol_version = version; pdu_type = type; m = m; length = length }, b4)

unfoldable pub serial_query_from_stream : PduHeader → Read SerialPdu
unfolding read_int32
serial_query_from_stream header buf = do
  (serial, b1) ← read_int32 buf
  ok (record { header = header; serial_number = serial }, b1)

module _ (ntohl : ℕ → ℕ) where
  unfoldable pub ipv4_prefix_from_stream : PduHeader → Read (PrefixPdu ℕ)
  unfolding read_int8 read_in_addr read_int32
  ipv4_prefix_from_stream header buf = disjunction do
    (flags, b1) ← read_int8 buf
    (prefix_length, b2) ← read_int8 b1
    (max_length, b3) ← read_int8 b2
    (zero_field, b4) ← read_int8 b3
    (address, b5) ← read_in_addr ntohl b4
    (asn, b6) ← read_int32 b5
    ok (
      record {
        header = header;
        flags = flags;
        prefix_length = prefix_length;
        max_length = max_length;
        zero = zero_field;
        address = address;
        asn = asn;
      },
      b6,
    )

unfoldable pub ipv6_prefix_from_stream : PduHeader → Read (PrefixPdu (List ℕ))
unfolding read_int8 read_in6_addr read_int32
ipv6_prefix_from_stream header buf = disjunction do
  (flags, b1) ← read_int8 buf
  (prefix_length, b2) ← read_int8 b1
  (max_length, b3) ← read_int8 b2
  (zero_field, b4) ← read_int8 b3
  (address, b5) ← read_in6_addr 16 b4
  (asn, b6) ← read_int32 b5
  ok (
    record {
      header = header;
      flags = flags;
      prefix_length = prefix_length;
      max_length = max_length;
      zero = zero_field;
      address = address;
      asn = asn;
    },
    b6,
  )
