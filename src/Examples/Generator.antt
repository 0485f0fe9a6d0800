-- ===== src/Examples/Generator.antt =====
-- The generator at concrete inputs: cmd/amgen/src/main.rs.
use adaptivemsg_rust.Base.{arith, ◌≡◌, refl, [], ◌∷◌, some, none, false, not}
use adaptivemsg_rust.Amgen.Texts.{Text, codes, ok, bail, same}
use adaptivemsg_rust.Amgen.Names.{
  MessageAttr, dotted, compute_wire_name, wire_name_static, to_go_field_name, is_initialism,
}
use adaptivemsg_rust.Amgen.Types.{
  Ty, path, paren, last, no_arguments, angle_bracketed, type_argument, other_argument, no_more,
  go_type, go_path_type, is_named,
}
use adaptivemsg_rust.Amgen.Render.{render_go}
use adaptivemsg_rust.Amgen.WireNames.{go_wire_name, wire_name_agreement}

abbrev named_type : Text → Ty
named_type t = path false (last t no_arguments)

abbrev generic_type : Text → Ty → Ty
generic_type t inner =
    path false (last t (angle_bracketed (other_argument (type_argument inner no_more))))

go_type_test :
    go_type (generic_type (codes "Option") (generic_type (codes "Vec") (named_type (codes "i64"))))
    ≡ ok (codes "*[]int64")
unfolding go_type go_path_type is_named
go_type_test = refl

byte_vec_test :
    go_type (generic_type (codes "Vec") (named_type (codes "u8")))
    ≡ bail "mark the field #[serde(with = \"serde_bytes\")]"
unfolding go_type go_path_type is_named
byte_vec_test = refl

-- In parentheses the element is not seen to be a byte.
byte_vec_paren_test :
    go_type (generic_type (codes "Vec") (paren (named_type (codes "u8")))) ≡ ok (codes "[]uint8")
unfolding go_type go_path_type is_named
byte_vec_paren_test = refl

to_go_field_name_test : to_go_field_name (codes "user__id_list") ≡ ok (codes "UserIDList")
unfolding to_go_field_name is_initialism
to_go_field_name_test = refl

abbrev chat : MessageAttr
chat = record { ns = some (codes "chat"); name = none }

wire_name_agreement_example :
    go_wire_name
      (λ p t. dotted (codes "am") (dotted p t))
      (codes "api")
      (codes "Hello")
      (compute_wire_name
        (codes "api")
        (codes "Hello")
        chat
        (not (same (codes "api") (codes "api"))))
    ≡ some (codes "chat.api.Hello")
unfolding wire_name_static
wire_name_agreement_example =
    wire_name_agreement (λ p t. dotted (codes "am") (dotted p t)) chat
      (codes "service" ∷ codes "api" ∷ []) (codes "api") (codes "api") (codes "Hello") (λ p t. refl)
      refl (ground arith)

render_go_test :
    render_go (codes "api") (
      record {
        name = codes "Ok";
        fields = record { name = codes "ID"; ty = codes "int8"; tag = codes "id" } ∷ [];
        wire_name = none;
      }
      ∷ [])
    ≡ codes
        "// Code generated by amgen-rs; DO NOT EDIT.\n\npackage api\n\ntype Ok struct {\n\tID int8 `am:\"id\"`\n}\n\n"
unfolding render_go
render_go_test = refl
