-- ===== src/Resource.antt =====
-- The components of src/resource: the sorted arrays of IP addresses and AS numbers, and
-- resource.c, which fills them from a certificate.
pub mod Extension
pub mod Ip4
pub mod Ip6
pub mod Asn
pub mod Slots
pub mod Inherit
