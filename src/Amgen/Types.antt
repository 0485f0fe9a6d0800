-- ===== src/Amgen/Types.antt =====
-- cmd/amgen/src/main.rs: the Go type of a Rust type.
use adaptivemsg_rust.Base.{
  String, List, [], ◌∷◌, ◌++◌, Option, some, none, Bool, true, false, ◌&&◌, if◌then◌else◌,
}
use adaptivemsg_rust.Amgen.Texts.{Text, codes, same, one_of, Outcome, ok, bail, ◌>>=◌}

-- `syn::Type`, by the cases that the code tells apart. A path is its qualifier and its segments, an array has the
-- digits of its length if that is an integer literal.
mutual
  pub data Ty : Type 0 where
    path : Bool → Segments → Ty
    array : Option Text → Ty → Ty
    slice paren group : Ty → Ty
    reference tuple ptr bare_fn never trait_object impl_trait macro infer other : Ty

  pub data Segments : Type 0 where
    last : Text → Arguments → Segments
    before : Segments → Segments
    no_segment : Segments

  pub data Arguments : Type 0 where
    no_arguments parenthesized : Arguments
    angle_bracketed : Generics → Arguments

  pub data Generics : Type 0 where
    no_more : Generics
    type_argument : Ty → Generics → Generics
    other_argument : Generics → Generics

-- The last segment of a path.
abbrev pub last_segment : Segments → Option (Text × Arguments)
last_segment no_segment = none
last_segment (last ident arguments) = some (ident, arguments)
last_segment (before segments) = last_segment segments

abbrev no_args : Arguments → Bool
no_args no_arguments = true
no_args parenthesized = false
no_args (angle_bracketed generics) = false

abbrev pub is_named_segment : Option (Text × Arguments) → String → Bool
is_named_segment none name = false
is_named_segment (some (ident, arguments)) name = same ident (codes name) && no_args arguments

unfoldable pub is_named : Ty → String → Bool
is_named (path qualified segments) name = is_named_segment (last_segment segments) name
is_named ty name = false

-- The type arguments, each with its own translation.
abbrev pub Translated : Type 0
Translated = List (Ty × Outcome Text)

abbrev pub single_generic_type : Outcome Translated → Outcome (Ty × Outcome Text)
single_generic_type (bail message) = bail message
single_generic_type (ok []) = bail "missing generic type"
single_generic_type (ok (t ∷ [])) = ok t
single_generic_type (ok (t ∷ u ∷ more)) = bail "expected a single generic type"

abbrev pub two_generic_types :
    Outcome Translated → Outcome ((Ty × Outcome Text) × (Ty × Outcome Text))
two_generic_types (bail message) = bail message
two_generic_types (ok []) = bail "missing map key type"
two_generic_types (ok (t ∷ [])) = bail "missing map value type"
two_generic_types (ok (t ∷ u ∷ [])) = ok (t, u)
two_generic_types (ok (t ∷ u ∷ v ∷ more)) = bail "expected exactly two generic types"

abbrev pub renamed : List (String × String)
renamed =
    ("String", "string")
    ∷ ("bool", "bool")
    ∷ ("i8", "int8")
    ∷ ("i16", "int16")
    ∷ ("i32", "int32")
    ∷ ("i64", "int64")
    ∷ ("u8", "uint8")
    ∷ ("u16", "uint16")
    ∷ ("u32", "uint32")
    ∷ ("u64", "uint64")
    ∷ ("f32", "float32")
    ∷ ("f64", "float64")
    ∷ ("ByteBuf", "[]byte")
    ∷ []

abbrev pub find : List (String × String) → Text → Option Text
find [] ident = none
find ((rust, go) ∷ table) ident =
    if same ident (codes rust) then some (codes go) else find table ident

-- The arms of `go_type` for a path that ends in `ident`.
unfoldable pub go_path_type : Text → Outcome Translated → Outcome Text
unfolding is_named
go_path_type ident arguments = elim (find renamed ident) [
  | some go ↦ ok go
  | none ↦
      if one_of ident ("isize" ∷ "usize" ∷ "i128" ∷ "u128" ∷ [])
      then bail "is not supported; use a fixed-width integer"
      else if same ident (codes "Option")
      then (single_generic_type arguments >>= λ inner. inner.1 >>= λ go. ok (codes "*" ++ go))
      else if same ident (codes "Vec")
      then (single_generic_type arguments >>= λ inner.
          if is_named inner.0 "u8"
          then bail "mark the field #[serde(with = \"serde_bytes\")]"
          else (inner.1 >>= λ go. ok (codes "[]" ++ go)))
      else if one_of ident ("BTreeMap" ∷ "HashMap" ∷ [])
      then (two_generic_types arguments >>= λ pair.
          pair.0.1 >>= λ key. pair.1.1 >>= λ value. ok (codes "map[" ++ key ++ codes "]" ++ value))
      else ok ident
]

unfoldable mutual
  unfolding go_path_type

  pub go_type : Ty → Outcome Text
  go_type (path true segments) = bail "qualified types are not supported"
  go_type (path false segments) = go_segments segments
  go_type (array none elem) = bail "array length must be an integer literal"
  go_type (array (some len) elem) = go_type elem >>= λ go. ok (codes "[" ++ len ++ codes "]" ++ go)
  go_type (slice elem) = go_type elem >>= λ go. ok (codes "[]" ++ go)
  go_type (paren elem) = go_type elem
  go_type (group elem) = go_type elem
  go_type reference = bail "references are not supported; use owned types"
  go_type tuple = bail "tuple types are not supported"
  go_type ptr = bail "raw pointers are not supported"
  go_type bare_fn = bail "function types are not supported"
  go_type never = bail "never type is not supported"
  go_type trait_object = bail "trait objects are not supported"
  go_type impl_trait = bail "impl traits are not supported"
  go_type macro = bail "macro types are not supported"
  go_type infer = bail "inferred types are not supported"
  go_type other = bail "unsupported type"

  go_segments : Segments → Outcome Text
  go_segments no_segment = bail "empty type path"
  go_segments (before segments) = go_segments segments
  go_segments (last ident arguments) = go_path_type ident (go_arguments arguments)

  pub go_arguments : Arguments → Outcome Translated
  go_arguments no_arguments = bail "generic type requires angle brackets"
  go_arguments parenthesized = bail "generic type requires angle brackets"
  go_arguments (angle_bracketed generics) = ok (go_generics generics)

  go_generics : Generics → Translated
  go_generics no_more = []
  go_generics (type_argument ty generics) = (ty, go_type ty) ∷ go_generics generics
  go_generics (other_argument generics) = go_generics generics
