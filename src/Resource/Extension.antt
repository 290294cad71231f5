-- ===== src/Resource/Extension.antt =====
-- The decoded certificate extensions that src/resource.c reads: the C structures that asn1c
-- generates from RFC 3779. `nothing` stands for every value of `present` that no case names.
use fort_validator.Base.{ℕ, Bool, List, Option}
use fort_validator.Address.{BitString, AddressRange}

-- struct IPAddressOrRange
pub data AddressOrRange : Type 0 where
  nothing : AddressOrRange
  address_prefix : BitString → AddressOrRange
  address_range : AddressRange → AddressOrRange

-- struct IPAddressChoice
pub data AddressChoice : Type 0 where
  nothing inherit : AddressChoice
  addresses_or_ranges : List AddressOrRange → AddressChoice

-- struct IPAddressFamily
pub record AddressFamily : Type 0 where
  pub address_family : List ℕ
  pub ip_address_choice : AddressChoice

-- `I` is the type of encoded integers.
module _ (I : Type 0) where
  -- struct ASIdOrRange
  pub data AsIdOrRange : Type 0 where
    nothing : AsIdOrRange
    id : I → AsIdOrRange
    range : I → I → AsIdOrRange

  -- struct ASIdentifierChoice
  pub data AsIdentifierChoice : Type 0 where
    nothing inherit : AsIdentifierChoice
    as_ids_or_ranges : List AsIdOrRange → AsIdentifierChoice

  -- struct ASIdentifiers; of `rdi` only the presence counts.
  pub record AsIdentifiers : Type 0 where
    pub asnum : Option AsIdentifierChoice
    pub rdi : Bool
