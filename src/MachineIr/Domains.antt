-- ===== src/MachineIr/Domains.antt =====
-- src/machine_ir.cpp: the map from the values of a block to their domains, and the checks on it.
use xqvm.Base.{
  ℕ, Bool, not, List, [], ◌∷◌, length, Option, none, some, String, concat, leb, ◌==◌, ◌||◌,
  if◌then◌else◌,
}
use xqvm.CompareCondition
use xqvm.CompareCondition.{CompareCondition}
use xqvm.MachineIr.{
  ValueId, BlockId, IrValue, IntegerBinaryOperator, IntegerUnaryOperator, last_binary_operator,
  last_unary_operator, BlockEdge, MachineBlock,
}
use xqvm.Result.{Result, ok, err, Done, Error, make_error, verification, reject, ◌>>=◌, ◌>>◌}
use xqvm.ValueDomain
use xqvm.ValueDomain.{ValueDomain, domain_name}

abbrev pub ir_error : ℕ → String → Error
ir_error offset message = make_error verification offset message

-- `if (condition) return ir_error(...)`.
abbrev pub refuse : Bool → ℕ → String → Result Done
refuse condition offset message = reject condition verification offset message

abbrev pub DomainMap : Type 0
DomainMap = List (ValueId × ValueDomain)

unfoldable pub find_domain : DomainMap → ValueId → Option ValueDomain
find_domain [] id = none
find_domain ((key, domain) ∷ available) id =
    if key == id then some domain else find_domain available id

-- `emplace` keeps the entry that is there.
unfoldable pub emplace : DomainMap → ValueId → ValueDomain → DomainMap
unfolding find_domain
emplace available id domain = elim (find_domain available id) [
  | none ↦ (id, domain) ∷ available
  | some known ↦ available
]

unfoldable pub require_local : DomainMap → ValueId → String → Result ValueDomain
unfolding find_domain
require_local available id role = elim (find_domain available id) [
  | none ↦ err (ir_error id (concat role " is not defined in this block"))
  | some domain ↦ ok domain
]

unfoldable pub require_domain : DomainMap → ValueId → ValueDomain → String → Result Done
unfolding require_local
require_domain available id expected role = do
  domain ← require_local available id role
  refuse (not (domain == expected)) id (
      concat role (
        concat " has domain "
          (concat (domain_name domain) (concat ", expected " (domain_name expected)))))

unfoldable pub is_data_domain : ValueDomain → Bool
is_data_domain domain =
    domain == ValueDomain.integer || domain == ValueDomain.address || domain == ValueDomain.boolean

unfoldable pub is_valid_binary_operator : IntegerBinaryOperator → Bool
is_valid_binary_operator operation = leb operation last_binary_operator

unfoldable pub is_valid_unary_operator : IntegerUnaryOperator → Bool
is_valid_unary_operator operation = leb operation last_unary_operator

unfoldable pub is_valid_compare_condition : CompareCondition → Bool
is_valid_compare_condition condition = leb condition CompareCondition.signed_less_equal

-- The map from ids to blocks: `emplace` has refused a second block of one id.
unfoldable pub find_block : List MachineBlock → BlockId → Option MachineBlock
find_block [] id = none
find_block (block ∷ blocks) id = if block.id == id then some block else find_block blocks id

-- The loop over the arguments of an edge, beside the parameters of its target.
unfoldable pub verify_edge_arguments : List ValueId → List IrValue → DomainMap → Result Done
unfolding require_local
verify_edge_arguments [] parameters available = ok tt
verify_edge_arguments (argument ∷ arguments) [] available = ok tt
verify_edge_arguments (argument ∷ arguments) (parameter ∷ parameters) available = do
  domain ← require_local available argument "edge argument"
  refuse (not (domain == parameter.domain)) argument "edge argument domain mismatch"
  verify_edge_arguments arguments parameters available

unfoldable pub verify_edge : BlockEdge → DomainMap → List MachineBlock → Result Done
unfolding find_block verify_edge_arguments
verify_edge edge available blocks = elim (find_block blocks edge.target) [
  | none ↦ err (ir_error edge.target "edge targets a missing block")
  | some target ↦ do
    refuse (not (length edge.arguments == length target.parameters)) edge.target
        "edge argument count does not match block parameters"
    verify_edge_arguments edge.arguments target.parameters available
]
