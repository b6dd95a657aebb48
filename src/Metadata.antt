-- ===== src/Metadata.antt =====
-- core/metadata/src: prototypes, their qualifiers, and the graph that resolves injections.
-- A property key of JavaScript is an array index, another string, or a symbol of the registry; a
-- numeric qualifier value is a number in ℕ.
pub mod Tests
pub mod Qualifier
pub mod Global
use tegg.Prelude.{
  ℕ, ◌≡◌, ◌↔◌, String, Bool, true, false, List, Key, ◌==◌, nat_key, string_key, nat_beq_iff, eq_iff,
  arith,
}

pub data PropertyKey : Type 0 where
  index_key : ℕ → PropertyKey
  named symbol : String → PropertyKey

pub data QualifierValue : Type 0 where
  str : String → QualifierValue
  num : ℕ → QualifierValue

abbrev pub same_property : PropertyKey → PropertyKey → Bool
same_property (index_key m) (index_key n) = m == n
same_property (named s) (named t) = s == t
same_property (symbol s) (symbol t) = s == t
same_property _ _ = false

pub same_property_iff : (j k : PropertyKey) → (same_property j k ≡ true) ↔ (j ≡ k)
same_property_iff (index_key m) (index_key n) = ground (arith, nat_beq_iff m n)
same_property_iff (index_key m) (named t) = ground arith
same_property_iff (index_key m) (symbol t) = ground arith
same_property_iff (named s) (index_key n) = ground arith
same_property_iff (named s) (named t) = ground (arith, eq_iff s t)
same_property_iff (named s) (symbol t) = ground arith
same_property_iff (symbol s) (index_key n) = ground arith
same_property_iff (symbol s) (named t) = ground arith
same_property_iff (symbol s) (symbol t) = ground (arith, eq_iff s t)

instance abbrev pub property_key : Key PropertyKey
property_key = record { same_iff = same_property_iff; same = same_property }

abbrev pub same_value : QualifierValue → QualifierValue → Bool
same_value (str s) (str t) = s == t
same_value (num m) (num n) = m == n
same_value _ _ = false

pub same_value_iff : (v w : QualifierValue) → (same_value v w ≡ true) ↔ (v ≡ w)
same_value_iff (str s) (str t) = ground (arith, eq_iff s t)
same_value_iff (str s) (num n) = ground arith
same_value_iff (num m) (str t) = ground arith
same_value_iff (num m) (num n) = ground (arith, nat_beq_iff m n)

instance abbrev pub value_key : Key QualifierValue
value_key = record { same_iff = same_value_iff; same = same_value }

pub record QualifierInfo : Type 0 where
  pub attribute : PropertyKey
  pub value : QualifierValue

pub data AccessLevel : Type 0 where
  private_access public_access : AccessLevel

abbrev pub is_public : AccessLevel → Bool
is_public private_access = false
is_public public_access = true

pub record InjectObjectDescriptor : Type 0 where
  pub ref_name : PropertyKey
  pub obj_name : PropertyKey
  pub qualifiers : List QualifierInfo

pub record ProtoDescriptor : Type 0 where
  pub name : PropertyKey
  pub access_level : AccessLevel
  pub init_type : String
  pub qualifiers : List QualifierInfo
  pub inject_objects : List InjectObjectDescriptor
  pub define_module_name : String
  pub define_unit_path : String
  pub instance_module_name : String
  pub instance_define_unit_path : String

abbrev pub init_type_qualifier_attribute : PropertyKey
init_type_qualifier_attribute = symbol "Qualifier.InitType"

abbrev pub load_unit_name_qualifier_attribute : PropertyKey
load_unit_name_qualifier_attribute = symbol "Qualifier.LoadUnitName"

-- `ObjectInitType.CONTEXT`.
abbrev pub context_init_type : String
context_init_type = "CONTEXT"
