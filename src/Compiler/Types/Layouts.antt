-- ===== src/Compiler/Types/Layouts.antt =====
-- The declared layouts of compiler/compiler_types.py: `StructInfo` with its fields, `VariantInfo` and
-- `EnumInfo`.
use quin_lang.Prelude.{List, Option, [], if◌then◌else◌, none, same_name, some, ℕ, ◌+◌, ◌∷◌}
use quin_lang.Program.{Text}
use quin_lang.Compiler.Types.{QuinType, enum_class, struct_class, typ, word_count}

pub record StructField : Type 0 where
  pub name : Text
  pub field_type : QuinType
  pub offset : ℕ

pub record StructInfo : Type 0 where
  pub name : Text
  pub type_id : ℕ
  pub fields : List StructField

-- a struct with the enum it belongs to
pub record VariantInfo : Type 0 where
  pub info : StructInfo
  pub enum_name : Text
  pub short_name : Text
  pub index : ℕ

pub record EnumInfo : Type 0 where
  pub name : Text
  pub variants : List VariantInfo

unfoldable pub field_words : List StructField → ℕ
field_words [] = 0
field_words (f ∷ fs) = word_count f.field_type + field_words fs

unfoldable pub word_size : StructInfo → ℕ
word_size s = field_words s.fields

unfoldable pub field_in : List StructField → Text → Option StructField
field_in [] wanted = none
field_in (f ∷ fs) wanted =
    let rest = field_in fs wanted in if same_name f.name wanted then some f else rest

unfoldable pub field_named : StructInfo → Text → Option StructField
field_named s wanted = field_in s.fields wanted

unfoldable pub variant_in : List VariantInfo → Text → Option VariantInfo
variant_in [] qualified = none
variant_in (v ∷ vs) qualified =
    let rest = variant_in vs qualified in if same_name v.info.name qualified then some v else rest

unfoldable pub variant_named : EnumInfo → Text → Option VariantInfo
variant_named e qualified = variant_in e.variants qualified

-- StructInfo.type
unfoldable pub struct_type_of : StructInfo → QuinType
struct_type_of s = typ s.name 2 struct_class

-- EnumInfo.type
unfoldable pub enum_type_of : EnumInfo → QuinType
enum_type_of e = typ e.name 2 enum_class
