-- ===== src/Tests/Pdu.antt =====
-- Protocol data units at concrete values.
use fort_validator.Base.{
  ℕ, ◌+◌, ◌*◌, ◌/◌, ◌%◌, ◌^◌, ◌≡◌, refl, List, [], ◌∷◌, ◌++◌, length, replicate, if◌then◌else◌,
  ◌==◌, arith,
}
use fort_validator.Base.Results.{ok, ◌>>=◌}
use fort_validator.Rtr.Pdu.{
  PduHeader, SerialPdu, PrefixPdu, EndOfDataPdu, RouterKeyPdu, serialize_serial_notify_pdu,
  serialize_ipv4_prefix_pdu, serialize_ipv6_prefix_pdu, serialize_cache_response_pdu,
  serialize_cache_reset_pdu, serialize_end_of_data_pdu, serialize_router_key_pdu,
  pdu_header_from_reader, serial_query_from_stream, ipv4_prefix_from_stream,
  ipv6_prefix_from_stream,
}
use fort_validator.Rtr.Pdu.RoundTrip.{
  serial_query_from_stream-serialize, ipv4_prefix_from_stream-serialize,
  ipv6_prefix_from_stream-serialize, serialize-length,
}

-- ntohl() where the host is little-endian.
abbrev swap : ℕ → ℕ
swap v = v % 256 * 2 ^ 24 + v / 2 ^ 8 % 256 * 2 ^ 16 + v / 2 ^ 16 % 256 * 2 ^ 8 + v / 2 ^ 24

abbrev header : ℕ → ℕ → PduHeader
header type len = record { protocol_version = 1; pdu_type = type; m = 513; length = len }

abbrev query : SerialPdu
query = record { header = header 1 12; serial_number = 70000 }

abbrev prefix4 : PrefixPdu ℕ
prefix4 = record {
  header = header 4 20;
  flags = 1;
  prefix_length = 24;
  max_length = 24;
  zero = 0;
  address = 0xC000_0200;
  asn = 64496;
}

abbrev prefix6 : PrefixPdu (List ℕ)
prefix6 = record {
  header = header 6 32;
  flags = 1;
  prefix_length = 32;
  max_length = 48;
  zero = 0;
  address = 32 ∷ 1 ∷ 13 ∷ 184 ∷ 0 ∷ 0 ∷ 0 ∷ 0 ∷ 0 ∷ 0 ∷ 0 ∷ 0 ∷ 0 ∷ 0 ∷ 0 ∷ 0 ∷ [];
  asn = 64496;
}

abbrev end_of_data : EndOfDataPdu
end_of_data = record {
  header = header 7 24;
  serial_number = 5;
  refresh_interval = 3600;
  retry_interval = 600;
  expire_interval = 7200;
}

abbrev router_key : RouterKeyPdu
router_key = record {
  header = header 9 123;
  ski = replicate 20 1;
  asn = 64496;
  spki = replicate 91 2;
}

serial_query_from_stream-serialize_example :
    (pdu_header_from_reader (serialize_serial_notify_pdu query ++ []) >>= λ (h, body).
    serial_query_from_stream h body)
    ≡ ok (query, [])
serial_query_from_stream-serialize_example =
    serial_query_from_stream-serialize query [] (ground arith) (omega arith)

-- 192.0.2.0 comes back as 0.2.0.192.
ipv4_prefix_from_stream-serialize_example :
    (pdu_header_from_reader (serialize_ipv4_prefix_pdu prefix4 ++ []) >>= λ (h, body).
    ipv4_prefix_from_stream swap h body)
    ≡ ok (record prefix4 { address = 0x0002_00C0 }, [])
ipv4_prefix_from_stream-serialize_example =
    ipv4_prefix_from_stream-serialize swap prefix4 [] (ground arith) (ground arith) (omega arith)
      (omega arith)

ipv6_prefix_from_stream-serialize_example :
    (pdu_header_from_reader (serialize_ipv6_prefix_pdu prefix6 ++ []) >>= λ (h, body).
    ipv6_prefix_from_stream h body)
    ≡ ok (prefix6, [])
ipv6_prefix_from_stream-serialize_example =
    ipv6_prefix_from_stream-serialize prefix6 [] (ground arith) (ground arith) refl (ground arith)
      (omega arith)

serialize-length_example :
    (length (serialize_cache_response_pdu (header 3 8)) ≡ 8)
    × (length (serialize_cache_reset_pdu (header 3 8)) ≡ 8)
    × (length (serialize_serial_notify_pdu query) ≡ 12)
    × (length (serialize_ipv4_prefix_pdu prefix4) ≡ 20)
    × (length (serialize_ipv6_prefix_pdu prefix6) ≡ 32)
    × (length (serialize_end_of_data_pdu end_of_data)
        ≡ (if end_of_data.header.protocol_version == 1 then 24 else 12))
    × (length (serialize_router_key_pdu router_key)
        ≡ (if router_key.header.protocol_version == 0 then 0 else 123))
serialize-length_example =
    serialize-length (header 3 8) query prefix4 prefix6 end_of_data router_key refl refl refl
