-- ===== src/Amgen/Names.antt =====
-- cmd/amgen/src/main.rs: the names of messages and fields. macros/src/lib.rs: the wire name of a message.
use adaptivemsg_rust.Base.{
  ℕ, ◌-◌, List, [], ◌∷◌, ◌++◌, Option, some, none, Bool, true, false, ◌&&◌, ◌||◌, ◌==◌, leb, not,
  if◌then◌else◌, is_empty, map, get_last?,
}
use adaptivemsg_rust.Amgen.Texts.{Text, codes, same, one_of, Outcome, ok, bail}

pub record MessageAttr : Type 0 where
  pub ns : Option Text
  pub name : Option Text

abbrev pub unwrap_or {ℓ} : {A : Type ℓ} → Option A → A → A
unwrap_or none d = d
unwrap_or (some a) d = a

-- `format!("{}.{}", a, b)`
abbrev pub dotted : Text → Text → Text
dotted a b = a ++ codes "." ++ b

abbrev pub has_override : MessageAttr → Bool
has_override attr = elim attr.name [
  | some name ↦ true
  | none ↦ elim attr.ns [ none ↦ false | some ns ↦ not (same ns (codes "am")) ]
]

unfoldable pub compute_wire_name : Text → Text → MessageAttr → Bool → Option Text
compute_wire_name module_name type_name attr force =
    let ns = unwrap_or attr.ns (codes "am") in
    let base = unwrap_or attr.name (dotted module_name type_name) in
    if force || has_override attr then some (dotted ns base) else none

-- The macro's wire name, from the attribute and the segments of the path of the module.
unfoldable pub wire_name_static : MessageAttr → List Text → Text → Text
wire_name_static attr module_path type_name =
    dotted (unwrap_or attr.ns (codes "am"))
      (unwrap_or attr.name (dotted (unwrap_or (get_last? module_path) (codes "unknown")) type_name))

-- `split('_')`, without the empty parts.
abbrev push_part : Text → List Text → List Text
push_part part parts = if is_empty part then parts else part ∷ parts

abbrev pub split_underscore : Text → Text → List Text
split_underscore part [] = push_part part []
split_underscore part (c ∷ name) =
    let rest = split_underscore [] name in
    let longer = split_underscore (part ++ c ∷ []) name in
    if c == 95 then push_part part rest else longer

abbrev pub to_ascii_uppercase : ℕ → ℕ
to_ascii_uppercase c = if leb 97 c && leb c 122 then c - 32 else c

unfoldable pub is_initialism : Text → Bool
is_initialism value = one_of value (
    "API" ∷ "ASCII" ∷ "CPU" ∷ "CSS" ∷ "DNS" ∷ "EOF" ∷ "GUID" ∷ "HTML" ∷ "HTTP" ∷ "HTTPS" ∷ "ID"
    ∷ "IP" ∷ "JSON" ∷ "LHS" ∷ "RHS" ∷ "QPS" ∷ "RAM" ∷ "RPC" ∷ "SLA" ∷ "SMTP" ∷ "SQL" ∷ "SSH" ∷ "TCP"
    ∷ "TLS" ∷ "TTL" ∷ "UDP" ∷ "UI" ∷ "UID" ∷ "UUID" ∷ "URI" ∷ "URL" ∷ "UTF8" ∷ "VM" ∷ "XML" ∷ "XMPP"
    ∷ "XSRF" ∷ "XSS" ∷ [])

abbrev pub go_part : Text → Text
go_part part =
    let upper = map to_ascii_uppercase part in
    if is_initialism upper
    then upper
    else elim part [ [] ↦ [] | first ∷ chars ↦ to_ascii_uppercase first ∷ chars ]

abbrev pub join : List Text → Text
join [] = []
join (t ∷ ts) = t ++ join ts

unfoldable pub to_go_field_name : Text → Outcome Text
unfolding is_initialism
to_go_field_name name = elim (split_underscore [] name) [
  | [] ↦ bail "invalid field name"
  | part ∷ parts ↦ ok (join (map go_part (part ∷ parts)))
]
