-- ===== src/ValueDomain.antt =====
-- include/xqvm/physical.hpp: what a value is used for.
-- An enumeration over a byte is that byte: the code checks for bytes that name no enumerator.
use xqvm.Base.{Byte, String, ◌==◌, if◌then◌else◌}

abbrev pub ValueDomain : Type 0
ValueDomain = Byte

abbrev pub integer : ValueDomain
integer = 0

abbrev pub address : ValueDomain
address = 1

abbrev pub boolean : ValueDomain
boolean = 2

abbrev pub semantic : ValueDomain
semantic = 3

abbrev pub history : ValueDomain
history = 4

abbrev pub continuation_lane : ValueDomain
continuation_lane = 5

abbrev pub continuation_proof : ValueDomain
continuation_proof = 6

unfoldable pub domain_name : ValueDomain → String
domain_name domain =
    if domain == integer
    then "integer"
    else if domain == address
    then "address"
    else if domain == boolean
    then "boolean"
    else if domain == semantic
    then "semantic"
    else if domain == history
    then "history"
    else if domain == continuation_lane
    then "continuation.lane"
    else if domain == continuation_proof
    then "continuation.proof"
    else "invalid"
