-- ===== src/Amgen/Render.antt =====
-- cmd/amgen/src/main.rs: the messages that are collected from a file, and the Go code that is written for them.
use adaptivemsg_rust.Base.{
  List, [], ◌∷◌, ◌++◌, Option, some, none, Bool, true, false, ◌&&◌, ◌==◌, if◌then◌else◌, is_empty,
}
use adaptivemsg_rust.Amgen.Texts.{Text, codes, same, Outcome, ok, bail, ◌>>=◌}
use adaptivemsg_rust.Amgen.Names.{MessageAttr, unwrap_or, compute_wire_name, to_go_field_name}
use adaptivemsg_rust.Amgen.Types.{
  Ty, Arguments, Generics, path, angle_bracketed, type_argument, no_more, other_argument,
  last_segment, go_type, go_arguments, is_named, single_generic_type,
}

pub record FieldDef : Type 0 where
  pub name : Text
  pub ty : Text
  pub tag : Text

pub record MessageDef : Type 0 where
  pub name : Text
  pub fields : List FieldDef
  pub wire_name : Option Text

-- An attribute: the segments of its path, and its arguments as `parse_message_attr` reads them.
pub record Attribute : Type 0 where
  pub segments : List Text
  pub arguments : Outcome MessageAttr

pub record SerdeFieldAttrs : Type 0 where
  pub rename : Option Text
  pub with_path : Option Text

-- A named field, with its serde attributes as `serde_field_attrs` reads them.
pub record Field : Type 0 where
  pub ident : Text
  pub serde : Outcome SerdeFieldAttrs
  pub ty : Ty

-- A struct of the file: `none` for the fields of a struct whose fields have no names.
pub record ItemStruct : Type 0 where
  pub attrs : List Attribute
  pub ident : Text
  pub fields : Option (List Field)

unfoldable pub is_am_message_attr : Attribute → Bool
is_am_message_attr attr = elim attr.segments [
  | [] ↦ false
  | first ∷ more ↦ elim more [
    | [] ↦ false
    | second ∷ rest ↦ is_empty rest && same first (codes "am") && same second (codes "message")
  ]
]

abbrev pub find_attr : Option Attribute → List Attribute → Outcome (Option Attribute)
find_attr found [] = ok found
find_attr none (attr ∷ attrs) =
    find_attr (if is_am_message_attr attr then some attr else none) attrs
find_attr (some found) (attr ∷ attrs) =
    let rest = find_attr (some found) attrs in
    if is_am_message_attr attr
    then bail "multiple #[am::message] attributes are not supported"
    else rest

unfoldable pub find_message_attr : List Attribute → Outcome (Option Attribute)
unfolding is_am_message_attr
find_message_attr attrs = find_attr none attrs

-- Whether a text ends with another.
abbrev pub ends_with : Text → Text → Bool
ends_with [] suffix = same [] suffix
ends_with (c ∷ t) suffix =
    let shorter = ends_with t suffix in if same (c ∷ t) suffix then true else shorter

unfoldable pub is_serde_bytes_path : Text → Bool
is_serde_bytes_path t =
    if same t (codes "serde_bytes") then true else ends_with t (codes "::serde_bytes")

abbrev first_generic : Generics → Option Ty
first_generic no_more = none
first_generic (type_argument ty generics) = some ty
first_generic (other_argument generics) = none

abbrev angle_of : Arguments → Option Generics
angle_of (angle_bracketed generics) = some generics
angle_of Arguments.no_arguments = none
angle_of Arguments.parenthesized = none

abbrev option_segment : Option (Text × Arguments) → Option Ty
option_segment none = none
option_segment (some (ident, arguments)) =
    if same ident (codes "Option")
    then elim (angle_of arguments) [ none ↦ none | some generics ↦ first_generic generics ]
    else none

unfoldable pub option_inner : Ty → Option Ty
option_inner (path qualified segments) = option_segment (last_segment segments)
option_inner ty = none

abbrev byte_segment : Option (Text × Arguments) → Bool
byte_segment none = false
byte_segment (some (ident, arguments)) =
    same ident (codes "Vec") && elim (single_generic_type (go_arguments arguments)) [
      | ok inner ↦ is_named inner.0 "u8"
      | bail e ↦ false
    ]

unfoldable pub is_byte_vec : Ty → Bool
unfolding go_type is_named
is_byte_vec (path qualified segments) = byte_segment (last_segment segments)
is_byte_vec ty = false

unfoldable pub serde_bytes_go_type : Ty → Outcome Text
unfolding option_inner is_byte_vec is_named
serde_bytes_go_type ty =
    let inner = unwrap_or (option_inner ty) ty in
    if is_byte_vec inner
    then ok (codes "[]byte")
    else if is_named inner "ByteBuf"
    then ok (codes "[]byte")
    else bail "serde_bytes fields must be Vec<u8>, ByteBuf, or an Option of either"

abbrev pub marked_bytes : SerdeFieldAttrs → Bool
marked_bytes serde = elim serde.with_path [ none ↦ false | some t ↦ is_serde_bytes_path t ]

abbrev pub parse_field : Field → Outcome FieldDef
parse_field field = field.serde >>= λ serde. to_go_field_name field.ident >>= λ name.
    (if marked_bytes serde then serde_bytes_go_type field.ty else go_type field.ty) >>= λ ty.
    ok (record { name = name; ty = ty; tag = unwrap_or serde.rename field.ident })

abbrev pub parse_named : List Field → Outcome (List FieldDef)
parse_named [] = ok []
parse_named (field ∷ fields) =
    parse_field field >>= λ def. parse_named fields >>= λ defs. ok (def ∷ defs)

unfoldable pub parse_fields : Option (List Field) → Outcome (List FieldDef)
unfolding to_go_field_name serde_bytes_go_type go_type is_serde_bytes_path
parse_fields none = bail "message structs must use named fields"
parse_fields (some fields) = parse_named fields

abbrev pub message_of : Text → Bool → ItemStruct → Attribute → Outcome MessageDef
message_of module_name force item attr = attr.arguments >>= λ attrs.
    parse_fields item.fields >>= λ fields. ok (record {
      name = item.ident;
      fields = fields;
      wire_name = compute_wire_name module_name item.ident attrs force;
    })

-- The structs among the items; the others are passed over.
unfoldable pub collect_messages : Text → List ItemStruct → Bool → Outcome (List MessageDef)
unfolding find_message_attr parse_fields compute_wire_name
collect_messages module_name [] force = ok []
collect_messages module_name (item ∷ items) force = find_message_attr item.attrs >>= λ found.
    elim found [
      | none ↦ collect_messages module_name items force
      | some attr ↦ message_of module_name force item attr >>= λ def.
          collect_messages module_name items force >>= λ defs. ok (def ∷ defs)
    ]

-- `push_line`
abbrev pub push_line : Text → Text → Text
push_line out line = out ++ line ++ 10 ∷ []

abbrev pub escape : Text → Text
escape [] = []
escape (c ∷ value) =
    (if c == 92 then 92 ∷ 92 ∷ [] else if c == 34 then 92 ∷ 34 ∷ [] else c ∷ []) ++ escape value

unfoldable pub format_go_string : Text → Text
format_go_string value = 34 ∷ (escape value ++ 34 ∷ [])

-- `replace('"', "\\\"")`
abbrev pub replace_quotes : Text → Text
replace_quotes [] = []
replace_quotes (c ∷ tag) = (if c == 34 then 92 ∷ 34 ∷ [] else c ∷ []) ++ replace_quotes tag

abbrev pub render_fields : Text → List FieldDef → Text
render_fields out [] = out
render_fields out (field ∷ fields) =
    render_fields
      (push_line out (
        9 ∷ field.name
        ++ 32 ∷ field.ty
        ++ codes " `am:\""
        ++ replace_quotes field.tag
        ++ codes "\"`"))
      fields

abbrev pub render_wire_name : Text → Text → Option Text → Text
render_wire_name out name none = out
render_wire_name out name (some wire) =
    push_line
      (push_line
        (push_line (push_line out []) (codes "func (*" ++ name ++ codes ") WireName() string {"))
        (9 ∷ codes "return " ++ format_go_string wire))
      (codes "}")

abbrev pub render_message : Text → MessageDef → Text
render_message out msg =
    render_wire_name
      (push_line
        (render_fields (push_line out (codes "type " ++ msg.name ++ codes " struct {")) msg.fields)
        (codes "}"))
      msg.name msg.wire_name

-- The messages after the first, each behind an empty line.
abbrev pub render_more : Text → List MessageDef → Text
render_more out [] = out
render_more out (msg ∷ messages) = render_more (render_message (push_line out []) msg) messages

abbrev pub render_messages : Text → List MessageDef → Text
render_messages out [] = out
render_messages out (msg ∷ messages) = render_more (render_message out msg) messages

unfoldable pub render_go : Text → List MessageDef → Text
unfolding format_go_string
render_go package_name messages =
    let head =
      push_line
        (push_line
          (push_line (push_line [] (codes "// Code generated by amgen-rs; DO NOT EDIT.")) [])
          (codes "package " ++ package_name))
        [] in
    push_line (render_messages head messages) []
