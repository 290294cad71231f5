-- ===== src/Lib.antt =====
-- A model of the core of FORT validator, an RPKI relying party: the resources that certificates
-- hold, the addresses that they are decoded from, and the database from which the RTR server
-- tells routers what has been validated.
--
-- The parts. A certificate's IP and AS resources (src/resource/ip4.c, ip6.c and asn.c) are
-- sorted arrays of ranges (src/sorted_array.c), filled with prefixes and ranges that src/address.c
-- decodes; src/resource.c reads them from its extensions, against those of the parent certificate.
-- Validation puts ROA payloads and router keys into a table (src/rtr/db/db_table.c). The
-- database (src/rtr/db/vrps.c) keeps the newest table, its serial number, and for each version
-- that some client (src/clients.c) may have the deltas (src/rtr/db/delta.c) that lead to the next
-- one; a router that asks with its serial is given the filtered deltas from there on. An operator's
-- SLURM files (src/slurm/db_slurm.c) filter what was validated, and add to it
-- (src/slurm/slurm_loader.c).
--
-- The files.
--   Base          shared names, results, allocations, bits and lists
--   SortedArray   src/sorted_array.c
--   Range         the comparison callbacks of asn.c and ip4.c; Range/ proves the sorted array
--   Address       the IPv4 part of src/address.c; Address/Ipv6 is its IPv6 part
--   Resource      src/resource/ip4.c (Resource/Ip4), ip6.c (Resource/Ip6) and asn.c (Resource/Asn),
--                 and src/resource.c: Resource/Slots what its three kinds of resources share,
--                 Resource/Inherit its functions, Resource/Extension the decoded extensions
--   Rtr/Keys      equality of stored elements, and uthash.h as the interface HashTable
--   Rtr/Vrp       src/rtr/db/vrp.h and src/object/router_key.h
--   Rtr/ArrayList src/data_structure/array_list.h
--   Rtr/Deltas    src/rtr/db/delta.c
--   Rtr/Table     src/rtr/db/db_table.c
--   Rtr/Filter    vrps_foreach_filtered_delta() of src/rtr/db/vrps.c
--   Rtr/Clients   src/clients.c; Rtr/Clients/Connected has its table, by file descriptor
--   Rtr/Pdu       src/rtr/pdu.h, src/rtr/pdu_serializer.c, src/rtr/primitive_writer.c, and the
--                 readers of src/rtr/primitive_reader.c and src/rtr/pdu.c
--   Rtr/Vrps      the rest of src/rtr/db/vrps.c
--   Slurm         src/slurm/db_slurm.c; Slurm/Flush is the life of its cache, Slurm/Load and
--                 Slurm/Apply are src/slurm/slurm_loader.c
--   Tests         runs at concrete inputs
--
-- How the code corresponds. A function that returns 0 or a negative error is a Result: `ok`, `err`
-- with the code, or `crit` where pr_crit() ends the process. A function that allocates is given
-- the list of what its calls of malloc() and realloc() return; past the end of the list they
-- succeed. Output parameters are returned. A callback works on a state that is passed on.
--
-- Numbers and fuel. unsigned int and uint32_t wrap at 2 ^ 32 where the code adds to them. An IPv4
-- address is the number that ntohl() gives, an IPv6 address the number of its 16 bytes; in the RTR
-- database it is the list of the bytes. Where pointers are compared, a slot says whether its array
-- is the parent's. The binary search has one more unit of fuel than
-- elements, the loop that grows an array the length (its capacity is a size_t of 64 bits), the walk over AS numbers two more than the
-- numbers of a range; out of fuel is `none` or `crit`.
--
-- Not modelled: locks (an operation is one step), the release of memory, the sizes in bytes that
-- malloc() and realloc() are given, log texts, the validation of certificates (an update is given
-- the table that it and SLURM make), the parsing of JSON, addresses in text, error reports, the
-- dispatch of protocol data units and their transport. What the state of vrps.c is after an update
-- that returned an error is not described.
pub mod Base
pub mod SortedArray
pub mod Range
pub mod Address
pub mod Resource
pub mod Rtr
pub mod Slurm
pub mod Tests
